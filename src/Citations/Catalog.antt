-- ===== src/Citations/Catalog.antt =====
-- A call on the catalog of infrastructure/storage/json_citation_repository.py: what it returns or
-- raises, with the catalog that it leaves behind, since what was written before a raise stays.
use tarkka.Prelude.{
  ℕ, ◌+◌, Bool, Option, none, some, List, filter, take, drop, length, nat_beq, nat_eq, compare,
  then_by, not_gt, sorted, values, lookup, put, Result, ok, err, runtime_error, if◌then◌else◌,
}
use tarkka.Citations.{WorkRelation}
use tarkka.Citations.Relations.{Relations}
use tarkka.Citations.Equality.{same_identity}
use tarkka.Citations.Resolution.{BibliographicReference, Resolutions}

-- The three buckets that the resolution of references reads and writes.
pub record Catalog : Type 0 where
  pub references : List (ℕ × BibliographicReference)
  pub resolutions : Resolutions
  pub relations : Relations

abbrev pub Action : Type 0 → Type 0
Action A = Catalog → Result A × Catalog

module _ {A B : Type 0} where
  abbrev pub after : Result A × Catalog → (A → Action B) → Result B × Catalog
  after (ok value, c) next = next value c
  after (err raised, c) next = (err raised, c)

  infixl 5 ◌>>=◌
  abbrev pub ◌>>=◌ : Action A → (A → Action B) → Action B
  ◌>>=◌ call next c = after (call c) next

module _ {A : Type 0} where
  abbrev pub pure : A → Action A
  pure value c = (ok value, c)

  -- A computation that leaves the catalog alone.
  abbrev pub lift : Result A → Action A
  lift result c = (result, c)

-- _reference_sort_key
abbrev pub reference_le : BibliographicReference → BibliographicReference → Bool
reference_le a b =
    not_gt (then_by (compare a.ordinal b.ordinal) (compare a.reference_id b.reference_id))

abbrev pub references_of : Catalog → ℕ → List BibliographicReference
references_of c document_id =
    filter (λ (r : BibliographicReference). nat_beq r.document_id document_id) (values c.references)

-- JsonCitationRepository.count_references
abbrev pub count_references : Catalog → ℕ → ℕ
count_references c document_id = length (references_of c document_id)

module _ {A : Type 0} where
  -- The page of a sorted list: heapq.nsmallest takes its first entries.
  abbrev pub page : ℕ → Option ℕ → List A → List A
  page offset none found = drop offset found
  page offset (some limit) found = drop offset (take (offset + limit) found)

-- JsonCitationRepository.list_references, for a page that is not negative; with a limit of 0 it
-- takes nothing, as the early return does
unfoldable pub list_references : Catalog → ℕ → ℕ → Option ℕ → List BibliographicReference
unfolding sorted
list_references c document_id offset limit =
    page offset limit (sorted reference_le (references_of c document_id))

abbrev pub reuse_or_create : WorkRelation → Option WorkRelation → Action WorkRelation
reuse_or_create relation none c =
    (ok relation, record c { relations = put relation.relation_id relation c.relations })
reuse_or_create relation (some existing) c =
    if same_identity existing relation
    then (ok existing, c)
    else (err (runtime_error "conflicting relation for stable ID"), c)

-- JsonCitationRepository.get_or_create_relation
unfoldable pub get_or_create_relation : WorkRelation → Action WorkRelation
unfolding same_identity
get_or_create_relation relation c =
    reuse_or_create relation (lookup relation.relation_id c.relations) c
