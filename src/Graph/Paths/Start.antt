-- ===== src/Graph/Paths/Start.antt =====
-- The first round of the loop of `computeRoutingTable`, which visits the local vertex and follows its
-- edges.
use legio.Prelude.{
  suc, ◌+◌, ◌≤◌, ◌≡◌, refl, ap, ◌∙◌, sym, ite, Bool, true, false, ◌||◌, if◌then◌else◌, List, [],
  ◌∷◌, length, Option, none, some, find, assign, contains, find-assign, IsMap, assign-IsMap, All,
  arith, inl, inr, Option-cases, Bool-cases,
}
use legio.Prelude.Int.{ℤ, pos, ltb_ℤ}
use legio.Graph.{Vertice, Vertices, find_vertice}
use legio.Graph.Paths.{Queue, push, relax, relax_all}
use legio.Graph.Paths.Settled.{SameKeys}

module _ {Identifier : Type 0} (same : Discrete Identifier)
    (address_lt : Identifier → Identifier → Bool) (local : Identifier) (es : List Identifier) where
  abbrev pub equal : Identifier → Identifier → Bool
  equal j k = ite (same j k) true false

  abbrev pub hop_if : Bool → Identifier → Option Identifier
  hop_if b id = if b then ite (same local id) none (some id) else none

  -- The vertices while the edges of the local vertex are followed, where those to `reached` were.
  pub record IsStarted (reached : Identifier → Bool) (vs : Vertices Identifier) : Type 0 where
    pub at_vertex :
        (id : Identifier) (v : Vertice Identifier)
        → find same id vs ≡ some v
        → (v.next_hop ≡ hop_if (reached id) id)
          × (ltb_ℤ (pos 2) v.distance ≡ false)
          × (v.visited ≡ equal local id)

  abbrev pub IsNear : ℤ × Identifier → Type 0
  IsNear (d, id) = (d ≡ pos 1) × (equal local id ≡ false) × (contains same id es ≡ true)

  push_grows :
      (id : Identifier) (queue : Queue Identifier)
      → equal local id ≡ false
      → contains same id es ≡ true
      → All IsNear queue
      → All IsNear (push same address_lt (pos 1, id) queue)
        × (length (push same address_lt (pos 1, id) queue) ≡ suc (length queue))
  unfolding push
  push_grows id [] l c a = (((refl, l, c), tt), refl)
  push_grows id ((d, j) ∷ queue) l c a = ground (arith, push_grows id queue l c a.1)

  push-after :
      (id : Identifier) (queue : Queue Identifier)
      → push same address_lt (pos 1, id) ((pos 0, local) ∷ queue)
        ≡ (pos 0, local) ∷ push same address_lt (pos 1, id) queue
  unfolding push
  push-after id queue = refl

  relax-start :
      (reached : Identifier → Bool) (id : Identifier) (vs : Vertices Identifier)
      (queue : Queue Identifier)
      → contains same id es ≡ true
      → IsStarted reached vs
      → IsMap same vs
      → All IsNear queue
      → (ws : Vertices Identifier) × (queue' : Queue Identifier) × (relax same address_lt none
            (pos 0)
            id
            vs
            ((pos 0, local) ∷ queue)
          ≡ (ws, (pos 0, local) ∷ queue'))
        × IsStarted (λ j. reached j || equal id j) ws
        × IsMap same ws
        × SameKeys same address_lt local es vs ws
        × All IsNear queue'
        × (length queue' ≤ suc (length queue))
  unfolding relax find_vertice
  relax-start reached id vs queue c s m a = elim (Option-cases (find same id vs)) [
    | inl e ↦ (
      vs,
      queue,
      rw (e, relax) refl,
      record { at_vertex = λ j w h. ground (arith, e, h, s.at_vertex j w h) },
      m,
      λ j. refl,
      a,
      omega arith,
    )
    | inr (v, e) ↦ elim (Bool-cases v.visited) [
      | inl seen ↦ (
        vs,
        queue,
        rw (e, relax) (ground arith),
        record { at_vertex = λ j w h. ground (arith, e, h, seen, s.at_vertex j w h) },
        m,
        λ j. refl,
        a,
        omega arith,
      )
      | inr fresh ↦
          let near = (s.at_vertex id v e).2 in
          (
            assign same id (record v { next_hop = some id; distance = pos 1 }) vs,
            push same address_lt (pos 1, id) queue,
            rw (e, relax) (simp fresh),
            record {
              at_vertex = λ j w h. ground (
                arith,
                e,
                h,
                fresh,
                s.at_vertex id v e,
                s.at_vertex j w,
                find-assign same id j (record v { next_hop = some id; distance = pos 1 }) vs,
              );
            },
            assign-IsMap same id _ vs m,
            λ j. ground (
              arith,
              find-assign same id j (record v { next_hop = some id; distance = pos 1 }) vs,
            ),
            (push_grows id queue (sym near ∙ fresh) c a).0,
            omega (arith, (push_grows id queue (sym near ∙ fresh) c a).1),
          )
    ]
  ]

  IsStarted-ext :
      (reached reached' : Identifier → Bool) (vs : Vertices Identifier)
      → ((j : Identifier) → reached j ≡ reached' j)
      → IsStarted reached vs
      → IsStarted reached' vs
  IsStarted-ext reached reached' vs e s = record {
    at_vertex = λ j v h. ground (arith, e j, s.at_vertex j v h);
  }

  pub relax_all-start :
      (reached : Identifier → Bool) (ids : List Identifier) (vs : Vertices Identifier)
      (queue : Queue Identifier)
      → All (λ id. contains same id es ≡ true) ids
      → IsStarted reached vs
      → IsMap same vs
      → All IsNear queue
      → (ws : Vertices Identifier) × (queue' : Queue Identifier) × (relax_all same address_lt none
            (pos 0)
            ids
            vs
            ((pos 0, local) ∷ queue)
          ≡ (ws, (pos 0, local) ∷ queue'))
        × IsStarted (λ j. reached j || contains same j ids) ws
        × IsMap same ws
        × SameKeys same address_lt local es vs ws
        × All IsNear queue'
        × (length queue' ≤ length ids + length queue)
  unfolding relax_all contains
  relax_all-start reached [] vs queue c s m a = (
    vs,
    queue,
    refl,
    IsStarted-ext reached _ vs (λ j. ground arith) s,
    m,
    λ j. refl,
    a,
    omega arith,
  )
  relax_all-start reached (id ∷ ids) vs queue c s m a =
      let (ws, q, run, s', m', k, a', l) = relax-start reached id vs queue c.0 s m a in
      let (us, q', ran, s'', m'', k', a'', l') =
        relax_all-start (λ j. reached j || equal id j) ids ws q c.1 s' m' a' in
      (
        us,
        q',
        ap (λ r. relax_all same address_lt none (pos 0) ids r.0 r.1) run ∙ ran,
        IsStarted-ext _ _ us (λ j. ground arith) s'',
        m'',
        λ j. k' j ∙ k j,
        a'',
        omega arith,
      )

  pub each_contained :
      (ids : List Identifier)
      → ((j : Identifier) → contains same j ids ≡ true → contains same j es ≡ true)
      → All (λ id. contains same id es ≡ true) ids
  unfolding contains
  each_contained [] h = tt
  each_contained (id ∷ ids) h =
      (h id (ground arith), each_contained ids (λ j e. h j (ground arith)))
