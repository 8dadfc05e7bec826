-- ===== src/Batching/Coverage.antt =====
-- The loop of `build_model_requests` ends and leaves no passage out.
use tarkka.Prelude.{
  ℕ, zero, suc, ◌+◌, ◌-◌, ◌≤◌, max, ◌≡◌, refl, sym, ap, ◌∙◌, subst, inl, inr, false, List, [], ◌∷◌,
  arith, leb, ltb, Bool-cases, length, drop, some, All, Any, All-mono, All-append, All-drop,
  drop-drop, drop-eq, drop-length, drop_none,
}
use tarkka.Batching.{ModelBatchingPolicy, ModelPassage, batch_from, batches_from}
use tarkka.Batching.Bounds.{IsBatch, batch_from-IsBatch, fill-prefix}

abbrev pub In : ModelPassage → List ModelPassage → Type 0
In x = Any (λ (y : ModelPassage). y ≡ x)

All-In : (xs : List ModelPassage) → All (λ (x : ModelPassage). In x xs) xs
All-In [] = tt
All-In (x ∷ xs) = (inl refl, All-mono xs (λ y i. inr i) (All-In xs))

-- Some batch has the passage.
abbrev pub IsCovered : List (List ModelPassage) → ModelPassage → Type 0
IsCovered batches x = Any (In x) batches

module _ (p : ModelBatchingPolicy) (passages : List ModelPassage) where
  -- The batches, and what is known of them.
  pub record IsDealt (fuel start : ℕ) : Type 0 where
    pub batches : List (List ModelPassage)
    pub ended : batches_from p fuel passages start ≡ some batches
    pub bounded : All (IsBatch p passages) batches
    pub covered : All (IsCovered batches) (drop start passages)

  no_more : (fuel start : ℕ) → length passages ≤ start → IsDealt fuel start
  unfolding batches_from
  no_more zero start h =
      let stop : ltb start (length passages) ≡ false = ground arith in
      record {
        batches = [];
        ended = rw stop refl;
        bounded = tt;
        covered = rw (drop_none start passages h) tt;
      }
  no_more (suc fuel) start h =
      let stop : ltb start (length passages) ≡ false = ground arith in
      record {
        batches = [];
        ended = rw (stop, batches_from) refl;
        bounded = tt;
        covered = rw (drop_none start passages h) tt;
      }

  -- A batch covers its own run, and the later batches what is behind it.
  with_batch :
      (start : ℕ) (later : List (List ModelPassage))
      → All (IsCovered later) (drop (start + length (batch_from p passages start)) passages)
      → All (IsCovered (batch_from p passages start ∷ later)) (drop start passages)
  with_batch start later behind =
      let batch = batch_from p passages start in
      let (rest, whole) = fill-prefix p (drop start passages) p.max_passages 0 false in
      let rest' : drop (start + length batch) passages ≡ rest =
        sym (drop-drop (length batch) start passages)
        ∙ ap (drop (length batch)) whole
        ∙ drop-length batch rest in
      let behind' = rw rest' at behind in
      subst (λ (l : List ModelPassage). All (IsCovered (batch ∷ later)) l) (sym whole)
        (All-append (IsCovered (batch ∷ later)) batch rest
          (All-mono batch (λ x i. inl i) (All-In batch)) (All-mono rest (λ x i. inr i) behind'))

  -- The loop ends: as much fuel as there are passages behind `start` gives its result, whose batches
  -- are runs of the passages, not empty and within the limits, and hold every passage from `start` on.
  pub batches_from-IsDealt :
      (fuel start : ℕ) → 1 ≤ p.max_passages → length passages ≤ start + fuel → IsDealt fuel start
  unfolding batches_from
  batches_from-IsDealt zero start room h = no_more zero start (omega arith)
  batches_from-IsDealt (suc fuel) start room h = elim (Bool-cases (ltb start (length passages))) [
    | inr done ↦ no_more (suc fuel) start (ground arith)
    | inl left ↦
        let batch = batch_from p passages start in
        let cursor = start + length batch in
        let is_batch = batch_from-IsBatch p passages start room (ground arith) in
        let grows = is_batch.not_empty in
        elim (Bool-cases (leb (length passages) cursor)) [
          | inl last ↦ record {
            batches = batch ∷ [];
            ended = rw (left, last, batches_from) refl;
            bounded = (is_batch, tt);
            covered = with_batch start [] (rw (drop_none cursor passages (ground arith)) tt);
          }
          | inr more ↦
              let next = max (start + 1) (cursor - p.overlap_passages) in
              let dealt = batches_from-IsDealt fuel next room (omega arith) in
              let again =
                drop-drop (cursor - next) next passages
                ∙ drop-eq {m = next + (cursor - next)} {n = cursor} passages (omega arith) in
              record {
                batches = batch ∷ dealt.batches;
                ended = rw (left, more, dealt.ended, batches_from) refl;
                bounded = (is_batch, dealt.bounded);
                covered = with_batch start dealt.batches (
                    rw again at (
                      All-drop (IsCovered dealt.batches) (cursor - next) (drop next passages)
                        dealt.covered));
              }
        ]
  ]
