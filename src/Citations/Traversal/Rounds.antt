-- ===== src/Citations/Traversal/Rounds.antt =====
-- One round over a frontier: it takes steps, and where it goes through, no work of the frontier has
-- an unseen relation left. Where it returns, the limit that it names is met.
use tarkka.Prelude.{
  ℕ, ◌+◌, ◌≤◌, ◌≡◌, refl, inl, inr, ◌⊎◌, true, ◌&&◌, ◌||◌, not, some, List, [], ◌∷◌, map, length,
  leb, nat_beq, nat_beq_iff, contains, nat_eq, arith, Bool-cases, Option-cases, All,
}
use tarkka.Citations.{WorkRelation}
use tarkka.Citations.Relations.{Relations, relations_of}
use tarkka.Citations.Traversal.{
  CitationTraversalPolicy, TraversalLimit, works, Walk, Flow, running, stopped, id_of,
  seen_relations, neighbor, follow, absorb,
}
use tarkka.Citations.Traversal.Selection.{LeadsFrom}
use tarkka.Citations.Traversal.Steps.{contains-follow, length-follow}

pub Flow-cases :
    (f : Flow)
    → ((w : Walk) × (f ≡ running w))
      ⊎ ((w : Walk) × (limit : TraversalLimit) × (f ≡ stopped w limit))
Flow-cases (running w) = inl (w, refl)
Flow-cases (stopped w limit) = inr (w, limit, refl)

neighbor_of_LeadsFrom :
    (policy : CitationTraversalPolicy) (work_id : ℕ) (r : WorkRelation)
    → LeadsFrom policy work_id r
    → (n : ℕ) × (neighbor work_id r ≡ some n)
unfolding neighbor
neighbor_of_LeadsFrom policy work_id r (kind, way) =
    elim (Bool-cases (nat_beq r.subject_work_id work_id)) [
      | inl out ↦ (r.object_work_id, rw out refl)
      | inr not_out ↦ (
        r.subject_work_id,
        elim way [
          | inl (asked, e) ↦ absurd (ground (arith, nat_beq_iff r.subject_work_id work_id))
          | inr (asked, e) ↦ ground (arith, nat_beq_iff r.object_work_id work_id)
        ],
      )
    ]

module _ (bucket : Relations) (policy : CitationTraversalPolicy) where
  -- No relation that leads from the work is unseen.
  abbrev pub IsComplete : ℕ → Walk → Type 0
  IsComplete work_id w =
      All (λ r. LeadsFrom policy work_id r → contains (id_of r) (seen_relations w) ≡ true)
        (relations_of bucket)

  pub absorb_running :
      (work_id : ℕ) (rs : List WorkRelation) (w w' : Walk)
      → All (LeadsFrom policy work_id) rs
      → absorb bucket policy work_id rs w ≡ running w'
      → ((a : ℕ)
          → (contains a (seen_relations w) || contains a (map id_of rs)) ≡ true
          → contains a (seen_relations w') ≡ true)
        × (length w'.ordered_relations ≡ length rs + length w.ordered_relations)
  unfolding absorb
  absorb_running work_id [] w w' leads e = (λ a h. ground (arith, e), ground (arith, e))
  absorb_running work_id (r ∷ rs) w w' leads e =
      let (n, there) = neighbor_of_LeadsFrom policy work_id r leads.0 in
      elim (Bool-cases
        (not (contains n w.ordered_works) && leb policy.max_works (length w.ordered_works))) [
          | inl full ↦ absurd (ground (arith, rw (there, full, absorb) at e))
          | inr free ↦
              let (kept, count) =
                absorb_running work_id rs (follow r n w) w' leads.1
                  (rw (there, free, absorb) at e) in
              (
                λ a h. kept a (rw (contains-follow a r n w) (ground arith)),
                omega (arith, count, length-follow r n w),
              )
        ]

  pub absorb_stopped :
      (work_id : ℕ) (rs : List WorkRelation) (w w' : Walk) (limit : TraversalLimit)
      → absorb bucket policy work_id rs w ≡ stopped w' limit
      → (limit ≡ works) × (policy.max_works ≤ length w'.ordered_works)
  unfolding absorb
  absorb_stopped work_id [] w w' limit e = absurd (ground (arith, e))
  absorb_stopped work_id (r ∷ rs) w w' limit e = elim (Option-cases (neighbor work_id r)) [
    | inl nowhere ↦ absorb_stopped work_id rs w w' limit (rw (nowhere, absorb) at e)
    | inr (n, there) ↦
        elim (Bool-cases
          (not (contains n w.ordered_works) && leb policy.max_works (length w.ordered_works))) [
            | inl full ↦
                let e' = rw (there, full, absorb) at e in (ground (arith, e'), ground (arith, e'))
            | inr free ↦
                absorb_stopped work_id rs (follow r n w) w' limit (rw (there, free, absorb) at e)
          ]
  ]
