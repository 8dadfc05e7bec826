-- ===== src/Citations/Traversal/Exhaustion.antt =====
-- `_relations_for` leaves no unseen relation of the work out where it returns fewer than asked.
use tarkka.Prelude.{
  ℕ, suc, ◌<◌, ◌≡◌, refl, ap, subst, inl, inr, ◌⊎◌, Bool, true, false, some, List, [], ◌∷◌, map,
  length, filter, all, nat_beq_iff, contains, nat_eq, sorted, arith, Bool-cases, All, All-mono,
  All-of_In, In-All, In, NoDup, NoDup-sorted, length-sorted, contains-sorted, take_all, keys,
  length-le_of_contains,
}
use tarkka.Citations.{WorkRelation}
use tarkka.Citations.Kinds.{allowed_iff}
use tarkka.Citations.Relations.{
  Relations, Field, subject, object, end_of, relation_le, relations_matching, relations_of,
  is_candidate,
}
use tarkka.Citations.Traversal.{
  CitationTraversalPolicy, follows, collect, side, relations_for, id_of,
}
use tarkka.Citations.Relations.{IsKeyed}
use tarkka.Citations.Traversal.Selection.{
  keys-ids, LeadsFrom, all-collect, contains-collect_old, gathered, gathered-IsKeyed, NoDup-take,
}

contains-filter :
    (a : ℕ) (p : WorkRelation → Bool) (rs : List WorkRelation)
    → contains a (map id_of rs) ≡ false
    → contains a (map id_of (filter p rs)) ≡ false
contains-filter a p [] h = refl
contains-filter a p (r ∷ rs) h = ground (arith, contains-filter a p rs)

NoDup-filter :
    (p : WorkRelation → Bool) (rs : List WorkRelation)
    → NoDup (map id_of rs)
    → NoDup (map id_of (filter p rs))
NoDup-filter p [] h = tt
NoDup-filter p (r ∷ rs) h = elim (Bool-cases (p r)) [
  | inl kept ↦ rw kept (contains-filter r.relation_id p rs h.0, NoDup-filter p rs h.1)
  | inr left_out ↦ rw left_out (NoDup-filter p rs h.1)
]

-- The relations that pass a test are named among those that a filter keeps.
All-named-filter :
    (p : WorkRelation → Bool) (rs : List WorkRelation)
    → All (λ r. p r ≡ true → contains (id_of r) (map id_of (filter p rs)) ≡ true) rs
All-named-filter p [] = tt
All-named-filter p (r ∷ rs) = (
  λ kept. ground (arith, nat_beq_iff r.relation_id r.relation_id),
  All-mono rs (λ q h kept. ground (arith, h kept)) (All-named-filter p rs),
)

all-of_All :
    (ks : List ℕ) (rs : List WorkRelation)
    → All (λ r. contains (id_of r) ks ≡ true) rs
    → all (λ k. contains k ks) (map id_of rs) ≡ true
all-of_All ks [] a = refl
all-of_All ks (r ∷ rs) a = ground (arith, all-of_All ks rs a.1)

length-ids : (rs : List WorkRelation) → length (map id_of rs) ≡ length rs
length-ids [] = refl
length-ids (r ∷ rs) = ap suc (length-ids rs)

length-relations_of : (items : Relations) → length (relations_of items) ≡ length (keys items)
length-relations_of [] = refl
length-relations_of (item ∷ items) = ap suc (length-relations_of items)

contains-of_all :
    (a : ℕ) (ks xs : List ℕ)
    → all (λ k. contains k ks) xs ≡ true
    → contains a xs ≡ true
    → contains a ks ≡ true
contains-of_all a ks [] h c = absurd (ground arith)
contains-of_all a ks (x ∷ xs) h c = ground (arith, contains-of_all a ks xs, nat_beq_iff x a)

module _ (bucket : Relations) (policy : CitationTraversalPolicy) (keyed : IsKeyed bucket) where
  side-NoDup :
      (field : Field) (work_id limit : ℕ) (seen : List ℕ)
      → NoDup (map id_of (side bucket policy field work_id limit seen))
  unfolding relations_matching
  side-NoDup field work_id limit seen = elim (Bool-cases (follows policy.direction field)) [
    | inl asked ↦ rw asked (
        NoDup-take limit _ (
          NoDup-sorted relation_le id_of _ (
            NoDup-filter _ (relations_of bucket)
              (subst NoDup (keys-ids bucket keyed.named) keyed.distinct))))
    | inr not_asked ↦ rw not_asked tt
  ]

  -- A side that is not full names every relation that it should.
  side-named :
      (field : Field) (work_id limit : ℕ) (seen : List ℕ)
      → follows policy.direction field ≡ true
      → length (side bucket policy field work_id limit seen) < limit
      → All
          (λ r.
            is_candidate bucket field work_id (some policy.relation_kinds) seen r ≡ true
            → contains (id_of r) (map id_of (side bucket policy field work_id limit seen)) ≡ true)
          (relations_of bucket)
  unfolding relations_matching
  side-named field work_id limit seen asked short =
      let test = is_candidate bucket field work_id (some policy.relation_kinds) seen in
      let found = filter test (relations_of bucket) in
      let whole = take_all limit (sorted relation_le found) (ground arith) in
      All-mono (relations_of bucket)
        (λ r h passes.
          rw (asked, whole, contains-sorted relation_le id_of (id_of r) found) (h passes))
        (All-named-filter test (relations_of bucket))

  module _ (work_id limit : ℕ) (seen : List ℕ) where
    abbrev found : Relations
    found = gathered bucket policy work_id limit seen

    side-gathered :
        (field : Field)
        → all
            (λ k. contains k (keys found))
            (map id_of (side bucket policy field work_id limit seen))
          ≡ true
    side-gathered subject =
        let out = side bucket policy subject work_id limit seen in
        let back = side bucket policy object work_id limit seen in
        all-of_All (keys found) out (
          All-mono out (λ r h. contains-collect_old (id_of r) back (collect out []) h)
            (all-collect out []))
    side-gathered object =
        let out = side bucket policy subject work_id limit seen in
        let back = side bucket policy object work_id limit seen in
        all-of_All (keys found) back (all-collect back (collect out []))

    whole :
        length (relations_for bucket policy work_id limit seen) < limit
        → relations_for bucket policy work_id limit seen ≡ sorted relation_le (relations_of found)
    unfolding relations_for
    whole short = take_all limit (sorted relation_le (relations_of found)) short

    side_short :
        (field : Field)
        → length (relations_for bucket policy work_id limit seen) < limit
        → length (side bucket policy field work_id limit seen) < limit
    side_short field short =
        let from = side bucket policy field work_id limit seen in
        let fewer =
          length-le_of_contains (map id_of from) (keys found) (side-NoDup field work_id limit seen)
            (side-gathered field) in
        omega (
          arith,
          fewer,
          length-ids from,
          length-relations_of found,
          length-sorted relation_le (relations_of found),
          ap length (whole short),
        )

    side-returned :
        (field : Field) (r : WorkRelation)
        → length (relations_for bucket policy work_id limit seen) < limit
        → contains (id_of r) (map id_of (side bucket policy field work_id limit seen)) ≡ true
        → contains (id_of r) (map id_of (relations_for bucket policy work_id limit seen)) ≡ true
    side-returned field r short h =
        let keyed' = gathered-IsKeyed bucket policy work_id limit seen in
        let named = contains-of_all (id_of r) (keys found) _ (side-gathered field) h in
        rw (whole short, contains-sorted relation_le id_of (id_of r) (relations_of found))
          (subst (λ (ks : List ℕ). contains (id_of r) ks ≡ true) (keys-ids found keyed'.named)
            named)

    -- The identifier was seen before, or it is among what is returned.
    abbrev pub IsCovered : WorkRelation → Type 0
    IsCovered r =
        (contains (id_of r) seen ≡ true)
        ⊎ (contains (id_of r) (map id_of (relations_for bucket policy work_id limit seen)) ≡ true)

    side-IsCovered :
        (field : Field)
        → length (relations_for bucket policy work_id limit seen) < limit
        → follows policy.direction field ≡ true
        → All
            (λ r. In r.kind policy.relation_kinds → end_of field r ≡ work_id → IsCovered r)
            (relations_of bucket)
    side-IsCovered field short asked =
        All-mono (relations_of bucket)
          (λ r h kind here. elim (Bool-cases (contains (id_of r) seen)) [
            | inl old ↦ inl old
            | inr new ↦ inr (
                side-returned field r short (
                  h (
                    ground (
                      arith,
                      nat_beq_iff (end_of field r) work_id,
                      (allowed_iff policy.relation_kinds r.kind).1 kind,
                    ))))
          ])
          (side-named field work_id limit seen asked (side_short field short))

    pub relations_for_all :
        length (relations_for bucket policy work_id limit seen) < limit
        → All (λ r. LeadsFrom policy work_id r → IsCovered r) (relations_of bucket)
    relations_for_all short = All-of_In _ (relations_of bucket) λ r stored (kind, way). elim way [
      | inl (asked, here) ↦
          In-All _ r (relations_of bucket) (side-IsCovered subject short asked) stored kind here
      | inr (asked, here) ↦
          In-All _ r (relations_of bucket) (side-IsCovered object short asked) stored kind here
    ]
