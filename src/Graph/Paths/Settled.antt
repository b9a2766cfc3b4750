-- ===== src/Graph/Paths/Settled.antt =====
-- The second phase of the loop of `computeRoutingTable`, once the local vertex was visited: from a
-- vertex with a next hop no edge is followed, since the distance -1 of a vertex that was not reached
-- is below every tentative distance.
use legio.Prelude.{
  ℕ, zero, suc, ◌≤◌, ◌≡◌, refl, ap, ◌∙◌, sym, ite, Bool, true, false, if◌then◌else◌, List, [], ◌∷◌,
  length, Option, none, some, has_value, find, assign, contains, find-assign, IsMap, assign-IsMap,
  All, arith, inl, inr, Option-cases, Bool-cases,
}
use mathlib.Core.Path.{subst}
use legio.Prelude.Int.{ℤ, pos, negsuc, ltb_ℤ}
use legio.Graph.{Vertice, Vertices, find_vertice}
use legio.Graph.Paths.{Queue, relax, relax_all, visit, pop, search_loop}

module _ {Identifier : Type 0} (same : Discrete Identifier)
    (address_lt : Identifier → Identifier → Bool) (local : Identifier) (es : List Identifier) where
  -- The next hop that the search leaves at a vertex.
  abbrev pub direct_hop : Identifier → Option Identifier
  direct_hop id = if contains same id es then ite (same local id) none (some id) else none

  -- After the local vertex was visited: every vertex has its final next hop, and a distance that
  -- two hops do not improve.
  pub record IsSettled (vs : Vertices Identifier) : Type 0 where
    pub hops :
        (id : Identifier) (v : Vertice Identifier)
        → find same id vs ≡ some v
        → (v.next_hop ≡ direct_hop id) × (ltb_ℤ (pos 2) v.distance ≡ false)

  unfoldable pub IsDirect : ℤ × Identifier → Type 0
  IsDirect (d, id) = (d ≡ pos 1) × (direct_hop id ≡ some id)

  relax_settled :
      (hop id : Identifier) (vs : Vertices Identifier) (queue : Queue Identifier)
      → IsSettled vs
      → relax same address_lt (some hop) (pos 1) id vs queue ≡ (vs, queue)
  unfolding relax find_vertice
  relax_settled hop id vs queue s = elim (Option-cases (find same id vs)) [
    | inl e ↦ rw (e, relax) refl
    | inr (v, e) ↦ rw (e, relax) (ground (arith, s.hops id v e))
  ]

  relax_all_settled :
      (hop : Identifier) (ids : List Identifier) (vs : Vertices Identifier)
      (queue : Queue Identifier)
      → IsSettled vs
      → relax_all same address_lt (some hop) (pos 1) ids vs queue ≡ (vs, queue)
  unfolding relax_all
  relax_all_settled hop [] vs queue s = refl
  relax_all_settled hop (id ∷ ids) vs queue s =
      rw (relax_settled hop id vs queue s) (relax_all_settled hop ids vs queue s)

  -- Marking a vertex as visited keeps all that.
  mark : (id : Identifier) (v : Vertice Identifier) (vs : Vertices Identifier) → Vertices Identifier
  mark id v vs = assign same id (record v { visited = true }) vs

  mark-IsSettled :
      (id : Identifier) (v : Vertice Identifier) (vs : Vertices Identifier)
      → find same id vs ≡ some v
      → IsSettled vs
      → IsSettled (mark id v vs)
  unfolding mark
  mark-IsSettled id v vs e s = record {
    hops = λ j w h.
        ground (
          arith,
          find-assign same id j (record v { visited = true }) vs,
          s.hops id v e,
          s.hops j w,
        );
  }

  -- The vertices that there are stay.
  abbrev pub SameKeys : Vertices Identifier → Vertices Identifier → Type 0
  SameKeys vs ws = (id : Identifier) → has_value (find same id ws) ≡ has_value (find same id vs)

  mark-SameKeys :
      (id : Identifier) (v : Vertice Identifier) (vs : Vertices Identifier)
      → SameKeys vs (assign same id v vs)
  mark-SameKeys id v vs j = ground (arith, find-assign same id j v vs)

  -- The round for a vertex that was not visited and has a next hop.
  visit-fresh :
      (id hop : Identifier) (d : ℤ) (v : Vertice Identifier) (vs : Vertices Identifier)
      (queue : Queue Identifier)
      → find same id vs ≡ some v
      → v.visited ≡ false
      → v.next_hop ≡ some hop
      → visit same address_lt d id vs queue
        ≡ relax_all same address_lt (some hop) d v.edges (mark id v vs) queue
  unfolding visit find_vertice mark
  visit-fresh id hop d v vs queue e fresh h = rw (e, visit) (simp (fresh, h))

  -- A round on a direct neighbour only marks it.
  visit_marks :
      (id : Identifier) (vs : Vertices Identifier) (queue : Queue Identifier)
      → direct_hop id ≡ some id
      → IsSettled vs
      → IsMap same vs
      → (ws : Vertices Identifier) × (visit same address_lt (pos 1) id vs queue ≡ (ws, queue))
        × IsSettled ws
        × IsMap same ws
        × SameKeys vs ws
  unfolding visit find_vertice
  visit_marks id vs queue d s m = elim (Option-cases (find same id vs)) [
    | inl e ↦ (vs, rw (e, visit) refl, s, m, λ j. refl)
    | inr (v, e) ↦ elim (Bool-cases v.visited) [
      | inl seen ↦ (vs, rw (e, visit) (ground arith), s, m, λ j. refl)
      | inr fresh ↦
          let ws = mark id v vs in
          let s' = mark-IsSettled id v vs e s in
          (
            ws,
            visit-fresh id id (pos 1) v vs queue e fresh ((s.hops id v e).0 ∙ d)
                ∙ relax_all_settled id v.edges ws queue s',
            s',
            unfold mark in assign-IsMap same id _ vs m,
            unfold mark in mark-SameKeys id _ vs,
          )
    ]
  ]

  pub search_loop-step :
      (rounds : ℕ) (d : ℤ) (id : Identifier) (vs ws : Vertices Identifier)
      (queue queue' : Queue Identifier)
      → visit same address_lt d id vs ((d, id) ∷ queue) ≡ (ws, (d, id) ∷ queue')
      → search_loop same address_lt (suc rounds) vs ((d, id) ∷ queue)
        ≡ search_loop same address_lt rounds ws queue'
  unfolding search_loop
  search_loop-step rounds d id vs ws queue queue' e =
      ap (λ r. search_loop same address_lt rounds r.0 (pop same address_lt r.1)) e

  -- From there on the loop takes the direct neighbours off the queue.
  pub search_loop_ends :
      (rounds : ℕ) (vs : Vertices Identifier) (queue : Queue Identifier)
      → length queue ≤ rounds
      → All IsDirect queue
      → IsSettled vs
      → IsMap same vs
      → (ws : Vertices Identifier) × (search_loop same address_lt rounds vs queue ≡ some ws)
        × IsSettled ws
        × IsMap same ws
        × SameKeys vs ws
  unfolding search_loop IsDirect
  search_loop_ends rounds vs [] l a s m = (vs, refl, s, m, λ j. refl)
  search_loop_ends zero vs (top ∷ queue) l a s m = ground arith
  search_loop_ends (suc rounds) vs ((negsuc n, id) ∷ queue) l a s m = ground (arith, a.0.0)
  search_loop_ends (suc rounds) vs ((pos n, id) ∷ queue) l a s m =
      let (ws, run, s', m', k) = visit_marks id vs ((pos n, id) ∷ queue) a.0.1 s m in
      let (us, ran, s'', m'', k') = search_loop_ends rounds ws queue (omega arith) a.1 s' m' in
      (
        us,
        search_loop-step rounds (pos n) id vs ws queue queue (
              subst
                (λ x.
                  visit same address_lt x id vs ((pos n, id) ∷ queue) ≡ (ws, (pos n, id) ∷ queue))
                (sym a.0.0) run)
            ∙ ran,
        s'',
        m'',
        λ j. k' j ∙ k j,
      )
