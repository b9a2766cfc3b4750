-- ===== src/Binary/Xor.antt =====
-- `operator^=` of src/binary.cpp.
use Prim.Native.Nat.{bit_xor, max}
use legio.Prelude.{
  ℕ, zero, suc, ◌-◌, ◌≡◌, refl, ap, List, [], ◌∷◌, ◌++◌, take, replicate, length, arith,
  length-append, length-take,
}

-- `a.resize(n, byte(0))`
unfoldable pub resize : ℕ → List ℕ → List ℕ
resize n a = take n a ++ replicate (n - length a) 0

-- `for (i = 0; i < min(a.size(), b.size()); ++i) a[i] ^= b[i]`
unfoldable pub xor_loop : List ℕ → List ℕ → List ℕ
xor_loop [] b = []
xor_loop (x ∷ a) [] = x ∷ a
xor_loop (x ∷ a) (y ∷ b) = bit_xor x y ∷ xor_loop a b

-- `binary &operator^=(binary &a, const binary &b)`
unfoldable pub xor_assign : List ℕ → List ℕ → List ℕ
unfolding resize xor_loop
xor_assign a b = xor_loop (resize (max (length a) (length b)) a) b

length-replicate : (n : ℕ) → length {A = ℕ} (replicate n 0) ≡ n
length-replicate zero = refl
length-replicate (suc n) = ap suc (length-replicate n)

length-xor_loop : (a b : List ℕ) → length (xor_loop a b) ≡ length a
unfolding xor_loop
length-xor_loop [] b = refl
length-xor_loop (x ∷ a) [] = refl
length-xor_loop (x ∷ a) (y ∷ b) = ap suc (length-xor_loop a b)

-- The result is as long as the longer operand.
pub length-xor_assign : (a b : List ℕ) → length (xor_assign a b) ≡ max (length a) (length b)
unfolding xor_assign resize
length-xor_assign a b =
    let n = max (length a) (length b) in
    omega (
      arith,
      length-xor_loop (take n a ++ replicate (n - length a) 0) b,
      length-append (take n a) (replicate (n - length a) 0),
      length-take n a,
      length-replicate (n - length a),
    )
