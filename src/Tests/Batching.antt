-- ===== src/Tests/Batching.antt =====
-- Runs of the batching of passages, and its theorems at concrete inputs.
use tarkka.Prelude.{ℕ, ◌≡◌, refl, some, List, [], ◌∷◌, arith, All, ok, Text, codes}
use tarkka.Batching.{
  ModelBatchingPolicy, ModelPassage, ModelClaimRequest, post_init, batches_from,
  build_model_requests, requests_of,
}
use tarkka.Batching.Bounds.{IsBatch}
use tarkka.Batching.Coverage.{IsCovered, IsDealt, batches_from-IsDealt}
use tarkka.Batching.Requests.{batches_of, build_model_requests-IsCovered}

abbrev passage : ℕ → Text → ModelPassage
passage id text = record { passage_id = id; section_id = 0; ordinal = id; text = text }

abbrev passages : List ModelPassage
passages =
    passage 1 (codes "short") ∷ passage 2 (codes "a longer text") ∷ passage 3 (codes "end") ∷ []

abbrev policy : ModelBatchingPolicy
policy = record { max_chars = 10; max_passages = 2; overlap_passages = 1 }

abbrev request : List ModelPassage → ModelClaimRequest
request batch = record { document_id = 5; title = codes "t"; passages = batch }

abbrev requests : List ModelClaimRequest
requests =
    request (passage 1 (codes "short") ∷ [])
    ∷ request (passage 2 (codes "a longer text") ∷ [])
    ∷ request (passage 3 (codes "end") ∷ [])
    ∷ []

model : Unit {0}
unfolding post_init batches_from build_model_requests requests_of
model = tt

policy_runs : post_init policy ≡ ok policy
unfolding model
policy_runs = refl

build_runs : build_model_requests 5 (codes "t") passages policy ≡ ok requests
unfolding model
build_runs = refl

overlap_runs :
    batches_from (record policy { max_chars = 30 }) 3 passages 0
    ≡ some (
        (passage 1 (codes "short") ∷ passage 2 (codes "a longer text") ∷ [])
        ∷ (passage 2 (codes "a longer text") ∷ passage 3 (codes "end") ∷ [])
        ∷ [])
unfolding model
overlap_runs = refl

batches_from-IsDealt_example : IsDealt policy passages 3 0
batches_from-IsDealt_example = batches_from-IsDealt policy passages 3 0 (omega arith) (omega arith)

build_model_requests-IsCovered_example :
    All (IsBatch policy passages) (batches_of requests)
    × All (IsCovered (batches_of requests)) passages
build_model_requests-IsCovered_example =
    build_model_requests-IsCovered 5 (codes "t") passages policy {requests = requests} policy_runs
      build_runs
