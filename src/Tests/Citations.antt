-- ===== src/Tests/Citations.antt =====
-- Runs of the citation traversal, and its theorems at concrete inputs. The relations make a cycle of
-- the works 1, 2 and 3, with a fourth behind it and a relation of another kind.
use tarkka.Prelude.{ℕ, ◌≡◌, refl, some, none, List, [], ◌∷◌, arith, nat_eq, list_eq}
use tarkka.Citations.{WorkRelation, cites, related, native, WorkRelationKind}
use tarkka.Citations.Relations.{IsKeyed, Relations}
use tarkka.Citations.Traversal.{
  CitationTraversalPolicy, outbound, inbound, depth, works, relations, traverse,
}
use tarkka.Citations.Traversal.Bounded.{IsBounded, traverse-IsBounded}
use tarkka.Citations.Traversal.Reached.{traverse-IsReached}
use tarkka.Citations.Traversal.Reachability.{IsReached}
use tarkka.Citations.Traversal.Exhaustive.{HasFound, traverse-HasFound}

abbrev between : ℕ → ℕ → ℕ → WorkRelationKind → ℕ × WorkRelation
between id from to kind = (
  id,
  record {
    relation_id = id;
    subject_work_id = from;
    object_work_id = to;
    kind = kind;
    basis = native;
    source_observation_id = some 1;
    source_document_id = none;
    source_reference_id = none;
    created_at = 0;
  },
)

abbrev bucket : Relations
bucket =
    between 10 1 2 cites
    ∷ between 11 2 3 cites
    ∷ between 12 3 1 cites
    ∷ between 13 3 4 cites
    ∷ between 14 1 5 related
    ∷ []

abbrev policy : CitationTraversalPolicy
policy = record {
  max_depth = 5;
  max_works = 10;
  max_relations = 20;
  direction = outbound;
  relation_kinds = cites ∷ [];
}

bucket-IsKeyed : IsKeyed bucket
bucket-IsKeyed = record {
  named = (refl, (refl, (refl, (refl, (refl, tt)))));
  distinct = (refl, (refl, (refl, (refl, (refl, tt)))));
}

found : CitationTraversalPolicy → ℕ → List ℕ
unfolding traverse
found p root = (traverse bucket p root).work_ids

found_all : found policy 1 ≡ 1 ∷ 2 ∷ 3 ∷ 4 ∷ []
unfolding found
found_all = refl

found_near : (traverse bucket (record policy { max_depth = 1 }) 1).stopped_by ≡ some depth
unfolding traverse
found_near = refl

found_few : (traverse bucket (record policy { max_works = 2 }) 1).stopped_by ≡ some works
unfolding traverse
found_few = refl

found_back : found (record policy { direction = inbound }) 4 ≡ 4 ∷ 3 ∷ 2 ∷ 1 ∷ []
unfolding found
found_back = refl

found_cut : (traverse bucket (record policy { max_relations = 3 }) 1).stopped_by ≡ some relations
unfolding traverse
found_cut = refl

traverse-IsBounded_example : IsBounded policy (traverse bucket policy 1)
traverse-IsBounded_example = traverse-IsBounded bucket policy 1 bucket-IsKeyed (omega arith)

traverse-IsReached_example : IsReached bucket policy (traverse bucket policy 1)
traverse-IsReached_example = traverse-IsReached bucket policy 1 bucket-IsKeyed

traverse-HasFound_example :
    HasFound bucket policy (traverse bucket policy 1) (traverse bucket policy 1).stopped_by
traverse-HasFound_example = traverse-HasFound bucket policy 1 bucket-IsKeyed
