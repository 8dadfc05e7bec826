-- ===== src/Batching/Requests.antt =====
-- The requests of `build_model_requests` are the batches of its loop.
use tarkka.Prelude.{
  ℕ, ◌≡◌, refl, not, List, [], ◌∷◌, arith, map, length, ltb, all_distinct, nat_eq, All, ok, on_ok,
  on_require, Text, is_empty,
}
use tarkka.Batching.{
  ModelBatchingPolicy, ModelPassage, ModelClaimRequest, post_init, model_passages,
  model_claim_request, has_passages, requests_of, build_model_requests,
}
use tarkka.Batching.Bounds.{IsBatch}
use tarkka.Batching.Coverage.{IsCovered, batches_from-IsDealt}

model_passages-eq :
    (passages : List ModelPassage) {checked : List ModelPassage}
    → model_passages passages ≡ ok checked
    → checked ≡ passages
unfolding model_passages
model_passages-eq [] h = cc
model_passages-eq (x ∷ xs) h =
    on_require (not (is_empty x.text)) _ _ h
      λ t h1. on_ok (model_passages xs) _ h1 λ checked e h2. let e' = model_passages-eq xs e in cc

abbrev pub batches_of : List ModelClaimRequest → List (List ModelPassage)
batches_of = map (λ (request : ModelClaimRequest). request.passages)

module _ (document_id : ℕ) (title : Text) where
  requests_of-eq :
      (batches : List (List ModelPassage)) {requests : List ModelClaimRequest}
      → requests_of document_id title batches ≡ ok requests
      → batches_of requests ≡ batches
  unfolding requests_of model_claim_request
  requests_of-eq [] {requests} h = let e : requests ≡ [] = cc in rw e refl
  requests_of-eq (batch ∷ batches) {requests} h =
      let request : ModelClaimRequest = record {
        document_id = document_id;
        title = title;
        passages = batch;
      } in
      on_ok (model_claim_request request) _ h λ request' e h1.
        on_ok (requests_of document_id title batches) _ h1 λ later e' h2.
          on_require (has_passages batch) _ _ e λ t e1.
            on_require (all_distinct (map (λ (passage : ModelPassage). passage.passage_id) batch)) _
              _ e1
              λ t' e2.
                let ih = requests_of-eq batches e' in
                let same : requests ≡ request ∷ later = cc in rw (same, ih) refl

  -- The requests that are built carry batches that are runs of the passages, not empty and within the
  -- limits of a valid policy (a longer passage stands alone), and every passage is in some request.
  pub build_model_requests-IsCovered :
      (passages : List ModelPassage) (policy : ModelBatchingPolicy)
      {requests : List ModelClaimRequest}
      → post_init policy ≡ ok policy
      → build_model_requests document_id title passages policy ≡ ok requests
      → All (IsBatch policy passages) (batches_of requests)
        × All (IsCovered (batches_of requests)) passages
  unfolding build_model_requests post_init
  build_model_requests-IsCovered passages policy {requests} valid h =
      on_require (ltb 0 policy.max_chars) _ _ valid λ t v1.
        on_require (ltb 0 policy.max_passages) _ _ v1 λ room v2.
          on_ok (model_passages passages) _ h λ checked e h1.
            let same : checked ≡ passages = model_passages-eq passages e in
            let h2 = rw same at h1 in
            let dealt =
              batches_from-IsDealt policy passages (length passages) 0 (ground arith)
                (omega arith) in
            let h3 = rw dealt.ended at h2 in
            let built = requests_of-eq dealt.batches h3 in rw built (dealt.bounded, dealt.covered)
