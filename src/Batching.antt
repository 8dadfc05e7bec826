-- ===== src/Batching.antt =====
-- infrastructure/extraction/model_batching.py, with the requests of ports/model_claims.py: how the
-- passages of a document are dealt to the requests of a model.
pub mod Bounds
pub mod Coverage
pub mod Requests
use tarkka.Prelude.{
  ℕ, zero, suc, ◌+◌, ◌-◌, max, Bool, true, false, not, ◌&&◌, ◌||◌, Option, none, some, List, [],
  ◌∷◌, ◌++◌, leb, ltb, if◌then◌else◌, length, drop, all, all_distinct, nat_eq, contains, map,
  Result, ok, err, runtime_error, ◌>>=◌, ◌>>◌, require, Text, is_empty,
}

pub record ModelBatchingPolicy : Type 0 where
  pub max_chars : ℕ
  pub max_passages : ℕ
  pub overlap_passages : ℕ

-- ModelBatchingPolicy.__post_init__; negative values are refused as 0 is, and an overlap by typing
unfoldable pub post_init : ModelBatchingPolicy → Result ModelBatchingPolicy
post_init p = do
  require (ltb 0 p.max_chars) "model batch max_chars must be positive"
  require (ltb 0 p.max_passages) "model batch max_passages must be positive"
  require (ltb p.overlap_passages p.max_passages)
      "model batch overlap_passages must be less than max_passages"
  ok p

pub record ModelPassage : Type 0 where
  pub passage_id : ℕ
  pub section_id : ℕ
  pub ordinal : ℕ
  pub text : Text

pub record ModelClaimRequest : Type 0 where
  pub document_id : ℕ
  pub title : Text
  pub passages : List ModelPassage

module _ (p : ModelBatchingPolicy) where
  abbrev is_nil : List ModelPassage → Bool
  is_nil [] = true
  is_nil (x ∷ xs) = false

  -- The inner loop, from `model_passages[cursor:]` on: the passages that it appends. `room` is what
  -- max_passages leaves, `char_count` the characters of the batch so far, and `started` whether the
  -- batch has a passage.
  unfoldable pub fill : List ModelPassage → ℕ → ℕ → Bool → List ModelPassage
  fill [] room char_count started = []
  fill (passage ∷ rest) zero char_count started = []
  fill (passage ∷ rest) (suc room) char_count started =
      let next_count = char_count + length passage.text in
      let later = fill rest room next_count true in
      if started && ltb p.max_chars next_count then [] else passage ∷ later

  abbrev pub batch_from : List ModelPassage → ℕ → List ModelPassage
  batch_from passages start = fill (drop start passages) p.max_passages 0 false

  -- The outer loop, on fuel. The number of passages is enough: `start` grows at every turn.
  unfoldable pub batches_from : ℕ → List ModelPassage → ℕ → Option (List (List ModelPassage))
  unfolding fill
  batches_from zero passages start = if ltb start (length passages) then none else some []
  batches_from (suc fuel) passages start =
      let batch = batch_from passages start in
      let cursor = start + length batch in
      elim (ltb start (length passages)) [
        | false ↦ some []
        | true ↦ elim (leb (length passages) cursor) [
          | true ↦ some (batch ∷ [])
          | false ↦
              elim (batches_from fuel passages (max (start + 1) (cursor - p.overlap_passages))) [
                | none ↦ none
                | some later ↦ some (batch ∷ later)
              ]
        ]
      ]

-- ModelPassage.__post_init__; the ordinal is not negative by typing
unfoldable pub model_passages : List ModelPassage → Result (List ModelPassage)
model_passages [] = ok []
model_passages (passage ∷ rest) = do
  require (not (is_empty passage.text)) "model passage text must not be empty"
  checked ← model_passages rest
  ok (passage ∷ checked)

abbrev has_passages : List ModelPassage → Bool
has_passages [] = false
has_passages (passage ∷ rest) = true

-- ModelClaimRequest.__post_init__
unfoldable pub model_claim_request : ModelClaimRequest → Result ModelClaimRequest
unfolding all_distinct
model_claim_request request = do
  require (has_passages request.passages) "model claim request must contain passages"
  require (all_distinct (map (λ (passage : ModelPassage). passage.passage_id) request.passages))
      "model claim request passage IDs must be unique"
  ok request

module _ (document_id : ℕ) (title : Text) where
  unfoldable pub requests_of : List (List ModelPassage) → Result (List ModelClaimRequest)
  unfolding model_claim_request
  requests_of [] = ok []
  requests_of (batch ∷ batches) = do
    request ←
        model_claim_request (record { document_id = document_id; title = title; passages = batch })
    requests ← requests_of batches
    ok (request ∷ requests)

  abbrev pub or_out_of_fuel : Option (List (List ModelPassage)) → Result (List ModelClaimRequest)
  or_out_of_fuel none = err (runtime_error "out of fuel")
  or_out_of_fuel (some batches) = requests_of batches

  -- build_model_requests, of the passages as ModelPassage has their fields
  unfoldable pub build_model_requests :
      List ModelPassage → ModelBatchingPolicy → Result (List ModelClaimRequest)
  unfolding model_passages batches_from
  build_model_requests passages policy = do
    checked ← model_passages passages
    or_out_of_fuel (batches_from policy (length checked) checked 0)
