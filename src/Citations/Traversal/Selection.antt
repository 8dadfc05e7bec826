-- ===== src/Citations/Traversal/Selection.antt =====
-- What `_relations_for` reads: unseen relations that lead from the work, each once, at most as many
-- as asked, and all of them where it returns fewer.
use tarkka.Prelude.{
  ℕ, zero, suc, ◌≤◌, ◌≡◌, refl, subst, inl, inr, ◌⊎◌, true, false, some, List, [], ◌∷◌, map, length,
  filter, take, nat_beq_iff, contains, nat_eq, put, arith, Bool-cases, All, All-mono, All-filter,
  All-sorted_iff, All-take, All-In, In, NoDup, NoDup-sorted, length-take_le, keys,
  contains-keys-put, NoDup-keys-put, All-put, All-values,
}
use tarkka.Citations.{WorkRelation}
use tarkka.Citations.Kinds.{allowed_iff}
use tarkka.Citations.Relations.{
  Relations, IsKeyed, Field, subject, object, end_of, relation_le, relations_matching, relations_of,
  is_candidate,
}
use tarkka.Citations.Traversal.{
  CitationTraversalPolicy, follows, collect, side, relations_for, id_of,
}

pub keys-ids :
    (items : Relations)
    → All (λ (item : ℕ × WorkRelation). item.0 ≡ item.1.relation_id) items
    → keys items ≡ map id_of (relations_of items)
keys-ids [] a = refl
keys-ids (item ∷ items) a = λ i. a.0 i ∷ keys-ids items a.1 i

collect-IsKeyed :
    (rs : List WorkRelation) (items : Relations) → IsKeyed items → IsKeyed (collect rs items)
unfolding collect
collect-IsKeyed [] items k = k
collect-IsKeyed (r ∷ rs) items k = collect-IsKeyed rs (put r.relation_id r items) (record {
  named = All-put _ r.relation_id r items refl k.named;
  distinct = NoDup-keys-put r.relation_id r items k.distinct;
})

collect-All :
    (P : WorkRelation → Type 0) (rs : List WorkRelation) (items : Relations)
    → All P rs
    → All (λ (item : ℕ × WorkRelation). P item.1) items
    → All (λ (item : ℕ × WorkRelation). P item.1) (collect rs items)
unfolding collect
collect-All P [] items a b = b
collect-All P (r ∷ rs) items a b =
    collect-All P rs (put r.relation_id r items) a.1 (All-put _ r.relation_id r items a.0 b)

pub contains-collect_old :
    (k : ℕ) (rs : List WorkRelation) (items : Relations)
    → contains k (keys items) ≡ true
    → contains k (keys (collect rs items)) ≡ true
unfolding collect
contains-collect_old k [] items h = h
contains-collect_old k (r ∷ rs) items h =
    contains-collect_old k rs (put r.relation_id r items)
      (ground (arith, contains-keys-put k r.relation_id r items))

pub all-collect :
    (rs : List WorkRelation) (items : Relations)
    → All (λ r. contains (id_of r) (keys (collect rs items)) ≡ true) rs
unfolding collect
all-collect [] items = tt
all-collect (r ∷ rs) items = (
  contains-collect_old r.relation_id rs (put r.relation_id r items) (
      ground (
        arith,
        contains-keys-put r.relation_id r.relation_id r items,
        nat_beq_iff r.relation_id r.relation_id,
      )),
  all-collect rs (put r.relation_id r items),
)

contains-take :
    (a n : ℕ) (rs : List WorkRelation)
    → contains a (map id_of rs) ≡ false
    → contains a (map id_of (take n rs)) ≡ false
contains-take a zero rs h = refl
contains-take a (suc n) [] h = refl
contains-take a (suc n) (r ∷ rs) h = ground (arith, contains-take a n rs)

pub NoDup-take :
    (n : ℕ) (rs : List WorkRelation) → NoDup (map id_of rs) → NoDup (map id_of (take n rs))
NoDup-take zero rs h = tt
NoDup-take (suc n) [] h = tt
NoDup-take (suc n) (r ∷ rs) h = (contains-take r.relation_id n rs h.0, NoDup-take n rs h.1)

-- A relation of an allowed kind that leads on from a work in the direction of the policy.
abbrev pub LeadsFrom : CitationTraversalPolicy → ℕ → WorkRelation → Type 0
LeadsFrom policy work_id r =
    In r.kind policy.relation_kinds
    × (((follows policy.direction subject ≡ true) × (r.subject_work_id ≡ work_id))
        ⊎ ((follows policy.direction object ≡ true) × (r.object_work_id ≡ work_id)))

module _ (bucket : Relations) (policy : CitationTraversalPolicy) where
  abbrev Follows : Field → ℕ → WorkRelation → Type 0
  Follows field work_id r =
      In r.kind policy.relation_kinds
      × (follows policy.direction field ≡ true)
      × (end_of field r ≡ work_id)

  abbrev IsRead : Field → ℕ → List ℕ → WorkRelation → Type 0
  IsRead field work_id seen r =
      In r (relations_of bucket) × Follows field work_id r × (contains r.relation_id seen ≡ false)

  is_candidate-IsRead :
      (field : Field) (work_id : ℕ) (seen : List ℕ) (r : WorkRelation)
      → follows policy.direction field ≡ true
      → In r (relations_of bucket)
      → is_candidate bucket field work_id (some policy.relation_kinds) seen r ≡ true
      → IsRead field work_id seen r
  is_candidate-IsRead field work_id seen r asked stored h = (
    stored,
    (
      (allowed_iff policy.relation_kinds r.kind).0 (ground arith),
      asked,
      (nat_beq_iff _ _).0 (ground arith),
    ),
    ground arith,
  )

  side-IsRead :
      (field : Field) (work_id limit : ℕ) (seen : List ℕ)
      → All (IsRead field work_id seen) (side bucket policy field work_id limit seen)
  unfolding relations_matching
  side-IsRead field work_id limit seen = elim (Bool-cases (follows policy.direction field)) [
    | inl asked ↦
        let test = is_candidate bucket field work_id (some policy.relation_kinds) seen in
        let kept = All-filter _ test (relations_of bucket) (All-In (relations_of bucket)) in
        let read =
          All-mono (filter test (relations_of bucket))
            (λ r (stored, h). is_candidate-IsRead field work_id seen r asked stored h) kept in
        rw asked (
          All-take _ limit _
            ((All-sorted_iff relation_le _ (filter test (relations_of bucket))).1 read))
    | inr not_asked ↦ rw not_asked tt
  ]

  empty-IsKeyed : IsKeyed []
  empty-IsKeyed = record { named = tt; distinct = tt }

  abbrev pub gathered : ℕ → ℕ → List ℕ → Relations
  gathered work_id limit seen =
      collect (side bucket policy object work_id limit seen)
        (collect (side bucket policy subject work_id limit seen) [])

  pub gathered-IsKeyed : (work_id limit : ℕ) (seen : List ℕ) → IsKeyed (gathered work_id limit seen)
  gathered-IsKeyed work_id limit seen =
      collect-IsKeyed (side bucket policy object work_id limit seen) _
        (collect-IsKeyed (side bucket policy subject work_id limit seen) [] empty-IsKeyed)

  -- What `_relations_for` may return for a work.
  abbrev pub IsSelected : ℕ → List ℕ → WorkRelation → Type 0
  IsSelected work_id seen r =
      In r (relations_of bucket)
      × LeadsFrom policy work_id r
      × (contains r.relation_id seen ≡ false)

  pub relations_for-IsSelected :
      (work_id limit : ℕ) (seen : List ℕ)
      → All (IsSelected work_id seen) (relations_for bucket policy work_id limit seen)
  unfolding relations_for
  relations_for-IsSelected work_id limit seen =
      let out =
        All-mono (side bucket policy subject work_id limit seen)
          (λ r (stored, (kind, asked, here), new).
            let s : IsSelected work_id seen r = (stored, (kind, inl (asked, here)), new) in s)
          (side-IsRead subject work_id limit seen) in
      let back =
        All-mono (side bucket policy object work_id limit seen)
          (λ r (stored, (kind, asked, here), new).
            let s : IsSelected work_id seen r = (stored, (kind, inr (asked, here)), new) in s)
          (side-IsRead object work_id limit seen) in
      let all_of =
        collect-All (IsSelected work_id seen) _ _ back
          (collect-All (IsSelected work_id seen) _ [] out tt) in
      All-take _ limit _ (
        (All-sorted_iff relation_le _ (relations_of (gathered work_id limit seen))).1
          (All-values _ (gathered work_id limit seen) all_of))

  pub length-relations_for-le :
      (work_id limit : ℕ) (seen : List ℕ)
      → length (relations_for bucket policy work_id limit seen) ≤ limit
  unfolding relations_for
  length-relations_for-le work_id limit seen = length-take_le limit _

  pub NoDup-relations_for :
      (work_id limit : ℕ) (seen : List ℕ)
      → NoDup (map id_of (relations_for bucket policy work_id limit seen))
  unfolding relations_for
  NoDup-relations_for work_id limit seen =
      let keyed = gathered-IsKeyed work_id limit seen in
      NoDup-take limit _ (
        NoDup-sorted relation_le id_of (relations_of (gathered work_id limit seen))
          (subst NoDup (keys-ids (gathered work_id limit seen) keyed.named) keyed.distinct))
