-- ===== src/Binary/Strings.antt =====
-- `pack_strings` and `unpack_strings` of include/legio/binary.hpp. A `std::array<string, C>` is a
-- list of `C` strings.
use legio.Prelude.{
  ℕ, zero, suc, ◌≡◌, ◌≢◌, refl, ap, List, [], ◌∷◌, ◌++◌, append_assoc, length, All, ◌==◌,
  if◌then◌else◌, arith,
}

-- `binary pack_strings(const std::array<string, C> &strs)`
unfoldable pub pack_strings : List (List ℕ) → List ℕ
pack_strings [] = []
pack_strings (str ∷ strs) = str ++ 0 ∷ pack_strings strs

-- The inner loop: the bytes before the next zero, and what stands behind that zero.
unfoldable pub next_string : List ℕ → List ℕ × List ℕ
next_string [] = ([], [])
next_string (b ∷ bs) =
    let (str, rest) = next_string bs in if b == 0 then ([], bs) else (b ∷ str, rest)

-- `std::array<string, C> unpack_strings(const binary &bin)`: strings that are not reached stay empty.
unfoldable pub unpack_strings : ℕ → List ℕ → List (List ℕ)
unfolding next_string
unpack_strings zero bin = []
unpack_strings (suc c) [] = [] ∷ unpack_strings c []
unpack_strings (suc c) (b ∷ bs) =
    let (str, rest) = next_string (b ∷ bs) in str ∷ unpack_strings c rest

-- No byte of the string is the terminator.
abbrev pub IsText : List ℕ → Type 0
IsText = All (λ b. b ≢ 0)

next_string-append : (str rest : List ℕ) → IsText str → next_string (str ++ 0 ∷ rest) ≡ (str, rest)
unfolding next_string
next_string-append [] rest h = refl
next_string-append (b ∷ str) rest h = ground (arith, next_string-append str rest h.1)

unpack_step :
    (c : ℕ) (str rest : List ℕ)
    → IsText str
    → unpack_strings (suc c) (str ++ 0 ∷ rest) ≡ str ∷ unpack_strings c rest
unfolding unpack_strings
unpack_step c [] rest h = refl
unpack_step c (b ∷ str) rest h = ground (arith, next_string-append (b ∷ str) rest h)

-- Strings without zero bytes are unpacked as they were packed, also where bytes follow.
pub unpack-pack :
    (strs : List (List ℕ)) (more : List ℕ)
    → All IsText strs
    → unpack_strings (length strs) (pack_strings strs ++ more) ≡ strs
unfolding pack_strings
unpack-pack [] more h = unfold unpack_strings in refl
unpack-pack (str ∷ strs) more h =
    rw
      (
        append_assoc str (0 ∷ pack_strings strs) more,
        unpack_step (length strs) str (pack_strings strs ++ more) h.0,
      )
      (ap (◌∷◌ str) (unpack-pack strs more h.1))

-- Whatever bytes arrive, `unpack_strings` fills exactly the array.
pub length-unpack_strings : (c : ℕ) (bin : List ℕ) → length (unpack_strings c bin) ≡ c
unfolding unpack_strings
length-unpack_strings zero bin = refl
length-unpack_strings (suc c) [] = ap suc (length-unpack_strings c [])
length-unpack_strings (suc c) (b ∷ bs) = ap suc (length-unpack_strings c _)
