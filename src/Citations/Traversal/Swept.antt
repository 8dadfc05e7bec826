-- ===== src/Citations/Traversal/Swept.antt =====
-- The invariant that lets no reachable work be missed: visited works outside the frontier have no
-- unseen relation, and whatever is near enough is visited.
use tarkka.Prelude.{
  ℕ, ◌≤◌, ◌≡◌, refl, ap, sym, subst, ◌∙◌, inl, inr, ◌⊎◌, true, List, [], ◌∷◌, map, nat_beq,
  nat_beq_iff, contains, contains-append, nat_eq, arith, Bool-cases, All, All-mono, All-append, In,
  In-All, NoDup,
}
use tarkka.Citations.{WorkRelation}
use tarkka.Citations.Relations.{Relations, relations_of}
use tarkka.Citations.Traversal.{CitationTraversalPolicy, Walk, id_of, seen_relations}
use tarkka.Citations.Relations.{IsKeyed}
use tarkka.Citations.Traversal.Selection.{keys-ids, LeadsFrom}
use tarkka.Citations.Traversal.Steps.{Step, followed, Steps, Steps_rule}
use tarkka.Citations.Traversal.Rounds.{IsComplete}
use tarkka.Citations.Traversal.Reached.{IsLinked, IsLayered}
use tarkka.Citations.Traversal.Reachability.{Links, Reaches}

contains-ids :
    (k : ℕ) (q : WorkRelation) (rs : List WorkRelation)
    → In q rs
    → id_of q ≡ k
    → contains k (map id_of rs) ≡ true
contains-ids k q [] b e = absurd b
contains-ids k q (x ∷ xs) (inl b) e = ground (arith, nat_beq_iff (id_of x) k, ap id_of b, e)
contains-ids k q (x ∷ xs) (inr b) e = ground (arith, contains-ids k q xs b e)

-- An identifier names one relation.
named_once :
    (r q : WorkRelation) (rs : List WorkRelation)
    → NoDup (map id_of rs)
    → In r rs
    → In q rs
    → id_of q ≡ id_of r
    → q ≡ r
named_once r q [] h a b e = absurd a
named_once r q (x ∷ xs) h (inl a) (inl b) e = sym b ∙ a
named_once r q (x ∷ xs) h (inr a) (inr b) e = named_once r q xs h.1 a b e
named_once r q (x ∷ xs) h (inl a) (inr b) e =
    absurd (ground (arith, contains-ids (id_of x) q xs b (e ∙ ap id_of (sym a)), h.0))
named_once r q (x ∷ xs) h (inr a) (inl b) e =
    absurd (ground (arith, contains-ids (id_of x) r xs a (sym e ∙ ap id_of (sym b)), h.0))

of_ids :
    (k : ℕ) (rs : List WorkRelation)
    → contains k (map id_of rs) ≡ true
    → (q : WorkRelation) × In q rs × (id_of q ≡ k)
of_ids k [] h = absurd (ground arith)
of_ids k (x ∷ xs) h = elim (Bool-cases (nat_beq (id_of x) k)) [
  | inl here ↦ (x, inl refl, (nat_beq_iff _ _).0 here)
  | inr later ↦ let (q, b, e) = of_ids k xs (ground arith) in (q, inr b, e)
]

pub LeadsFrom-of_Links :
    (policy : CitationTraversalPolicy) (r : WorkRelation) (u v : ℕ)
    → Links policy r u v
    → LeadsFrom policy u r
LeadsFrom-of_Links policy r u v (kind, inl (asked, here, there)) = (kind, inl (asked, here))
LeadsFrom-of_Links policy r u v (kind, inr (asked, here, there)) = (kind, inr (asked, here))

module _ (bucket : Relations) (policy : CitationTraversalPolicy) (keyed : IsKeyed bucket)
    (root_work_id : ℕ) where
  -- A relation whose identifier was seen is in the result.
  pub seen_In :
      (d : ℕ) (w : Walk) (r : WorkRelation)
      → IsLinked bucket policy root_work_id d w
      → In r (relations_of bucket)
      → contains (id_of r) (seen_relations w) ≡ true
      → In r w.ordered_relations
  seen_In d w r linked stored seen =
      let (q, there, same) = of_ids (id_of r) w.ordered_relations seen in
      let (q_stored, kind, ends) = In-All _ q w.ordered_relations linked.between there in
      let ids = subst NoDup (keys-ids bucket keyed.named) keyed.distinct in
      subst (λ (x : WorkRelation). In x w.ordered_relations)
        (named_once r q (relations_of bucket) ids stored q_stored same) there

  -- A link from an exhausted work leads to a visited one.
  pub link_visited :
      (d : ℕ) (w : Walk) (r : WorkRelation) (u v : ℕ)
      → IsLinked bucket policy root_work_id d w
      → IsComplete bucket policy u w
      → In r (relations_of bucket)
      → Links policy r u v
      → contains v w.ordered_works ≡ true
  link_visited d w r u v linked complete stored (kind, way) =
      let seen =
        In-All _ r (relations_of bucket) complete stored
          (LeadsFrom-of_Links policy r u v (kind, way)) in
      let (s, k, (from, to)) =
        In-All _ r w.ordered_relations linked.between (seen_In d w r linked stored seen) in
      elim way [
        | inl (asked, here, there) ↦ rw (← there) to
        | inr (asked, here, there) ↦ rw (← there) from
      ]

  -- The visited works outside the frontier are exhausted, and all that is near enough is visited.
  pub record IsSwept (d : ℕ) (frontier : List ℕ) (w : Walk) : Type 0 where
    pub layered : IsLayered bucket policy root_work_id d frontier w
    pub open_works : All (λ v. In v frontier ⊎ IsComplete bucket policy v w) w.ordered_works
    pub all_near :
        (n v : ℕ)
        → n ≤ d
        → Reaches bucket policy root_work_id n v
        → contains v w.ordered_works ≡ true

  abbrev pub Old : List ℕ → Walk → Type 0
  Old before w = All (λ v. In v before ⊎ (contains v w.next_frontier ≡ true)) w.ordered_works

  pub Old-Steps :
      (before order : List ℕ) {w u : Walk}
      → Steps bucket policy order w u
      → Old before w
      → Old before u
  Old-Steps before order steps h =
      Steps_rule bucket policy order (Old before) (λ w u s g. one s g) steps h
    where
      one : {w u : Walk} → Step bucket policy order w u → Old before w → Old before u
      one (followed work_id r n w member selected there room less) g =
          elim (Bool-cases (contains n w.ordered_works)) [
            | inl old ↦ rw old g
            | inr new ↦ rw new (
                All-append _ w.ordered_works (n ∷ [])
                  (All-mono w.ordered_works
                    (λ v way. elim way [
                      | inl a ↦ inl a
                      | inr a ↦ inr (contains-append v w.next_frontier (n ∷ []) ∙ ground arith)
                    ])
                    g)
                  (
                    inr (
                        contains-append n w.next_frontier (n ∷ [])
                        ∙ ground (arith, nat_beq_iff n n)),
                    tt,
                  ))
          ]
