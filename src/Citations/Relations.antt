-- ===== src/Citations/Relations.antt =====
-- The relations of infrastructure/storage/json_citation_repository.py. The bucket is the dictionary
-- of the catalog from the text of an identifier to a relation; every call reads it whole.
use tarkka.Prelude.{
  ℕ, Bool, true, ◌&&◌, not, Option, none, some, List, map, filter, take, nat_beq, contains, nat_eq,
  list_eq, list_beq, compare, then_by, text_compare, not_gt, sorted, All, NoDup, keys, ◌≡◌,
}
use tarkka.Citations.{WorkRelationKind, WorkRelation, kind_value}

-- The relations by their identifier.
abbrev pub Relations : Type 0
Relations = List (ℕ × WorkRelation)

-- Each relation stands under its identifier, and no identifier occurs twice.
pub record IsKeyed (bucket : Relations) : Type 0 where
  pub named : All (λ (item : ℕ × WorkRelation). item.0 ≡ item.1.relation_id) bucket
  pub distinct : NoDup (keys bucket)

-- _relation_sort_key; the fixed-width text of a UUID is ordered as its number
unfoldable pub relation_le : WorkRelation → WorkRelation → Bool
unfolding text_compare
relation_le a b = not_gt (
    then_by (text_compare (kind_value a.kind) (kind_value b.kind)) (
      then_by (compare a.subject_work_id b.subject_work_id) (
        then_by (compare a.object_work_id b.object_work_id) (compare a.relation_id b.relation_id))))

-- item["kind"] in allowed_values
unfoldable pub allowed : Option (List WorkRelationKind) → WorkRelationKind → Bool
unfolding list_beq
allowed none kind = true
allowed (some kinds) kind = contains (kind_value kind) (map kind_value kinds)

-- The end of a relation that a query looks at.
pub data Field : Type 0 where
  subject object : Field

abbrev pub end_of : Field → WorkRelation → ℕ
end_of subject r = r.subject_work_id
end_of object r = r.object_work_id

module _ (bucket : Relations) where
  abbrev pub relations_of : List WorkRelation
  relations_of = map (λ (item : ℕ × WorkRelation). item.1) bucket

  -- A relation that a query asks for.
  abbrev pub is_candidate :
      Field → ℕ → Option (List WorkRelationKind) → List ℕ → WorkRelation → Bool
  is_candidate field work_id kinds exclude_ids r =
      nat_beq (end_of field r) work_id
      && not (contains r.relation_id exclude_ids)
      && allowed kinds r.kind

  abbrev pub limited : Option ℕ → List WorkRelation → List WorkRelation
  limited none found = found
  limited (some limit) found = take limit found

  -- _relations_matching; a limit is not negative by typing, and a limit of 0 takes nothing
  unfoldable pub relations_matching :
      Field → ℕ → Option (List WorkRelationKind) → List ℕ → Option ℕ → List WorkRelation
  unfolding relation_le sorted allowed
  relations_matching field work_id kinds exclude_ids limit =
      limited limit
        (sorted relation_le (filter (is_candidate field work_id kinds exclude_ids) relations_of))
