-- ===== src/Batching/Bounds.antt =====
-- What a batch holds: it is a run of passages, never empty, within the limits.
use tarkka.Prelude.{
  ℕ, zero, suc, ◌+◌, ◌≤◌, ◌<◌, ◌≡◌, refl, ap, ◌∙◌, length-drop, ◌⊎◌, inl, inr, Bool, true, false,
  ◌&&◌, List, [], ◌∷◌, ◌++◌, arith, leb, ltb, Bool-cases, length, drop, sum,
}
use tarkka.Batching.{ModelBatchingPolicy, ModelPassage, fill, batch_from}

abbrev chars : List ModelPassage → ℕ
chars = sum (λ (passage : ModelPassage). length passage.text)

module _ (p : ModelBatchingPolicy) where
  pub fill-prefix :
      (passages : List ModelPassage) (room count : ℕ) (started : Bool)
      → (rest : List ModelPassage) × (passages ≡ fill p passages room count started ++ rest)
  unfolding fill
  fill-prefix [] room count started = ([], refl)
  fill-prefix (x ∷ xs) zero count started = (x ∷ xs, refl)
  fill-prefix (x ∷ xs) (suc room) count started =
      let next = count + length x.text in
      let (rest, e) = fill-prefix xs room next true in
      elim (Bool-cases (started && ltb p.max_chars next)) [
        | inl full ↦ rw full (x ∷ xs, refl)
        | inr fits ↦ rw fits (rest, ap (λ (l : List ModelPassage). x ∷ l) e)
      ]

  length-fill :
      (passages : List ModelPassage) (room count : ℕ) (started : Bool)
      → length (fill p passages room count started) ≤ room
  unfolding fill
  length-fill [] room count started = omega arith
  length-fill (x ∷ xs) zero count started = omega arith
  length-fill (x ∷ xs) (suc room) count started =
      ground (arith, length-fill xs room (count + length x.text) true)

  chars-fill :
      (passages : List ModelPassage) (room count : ℕ)
      → count ≤ p.max_chars
      → count + chars (fill p passages room count true) ≤ p.max_chars
  unfolding fill
  chars-fill [] room count h = omega arith
  chars-fill (x ∷ xs) zero count h = omega arith
  chars-fill (x ∷ xs) (suc room) count h =
      let later = chars-fill xs room (count + length x.text) in
      elim (Bool-cases (ltb p.max_chars (count + length x.text))) [
        | inl full ↦ rw full (omega arith)
        | inr fits ↦ rw fits (omega (arith, later (ground arith)))
      ]

  fill_full :
      (passages : List ModelPassage) (room count : ℕ)
      → p.max_chars < count
      → fill p passages room count true ≡ []
  unfolding fill
  fill_full [] room count h = refl
  fill_full (x ∷ xs) zero count h = refl
  fill_full (x ∷ xs) (suc room) count h =
      let full : ltb p.max_chars (count + length x.text) ≡ true = ground arith in rw full refl

  -- A batch is a run of the passages that is not empty and has at most max_passages, and at most
  -- max_chars characters unless it is a single passage.
  pub record IsBatch (passages batch : List ModelPassage) : Type 0 where
    pub start : ℕ
    pub rest : List ModelPassage
    pub run : drop start passages ≡ batch ++ rest
    pub not_empty : 1 ≤ length batch
    pub few : length batch ≤ p.max_passages
    pub short : (chars batch ≤ p.max_chars) ⊎ (length batch ≡ 1)

  fill-short :
      (x : ModelPassage) (xs : List ModelPassage) (room : ℕ)
      → (1 ≤ length (fill p (x ∷ xs) (suc room) 0 false))
        × ((chars (fill p (x ∷ xs) (suc room) 0 false) ≤ p.max_chars)
            ⊎ (length (fill p (x ∷ xs) (suc room) 0 false) ≡ 1))
  unfolding fill
  fill-short x xs room = elim (Bool-cases (leb (0 + length x.text) p.max_chars)) [
    | inl fits ↦
        (omega arith, inl (omega (arith, chars-fill xs room (0 + length x.text) (ground arith))))
    | inr full ↦
        let none_after = fill_full xs room (0 + length x.text) (ground arith) in
        rw none_after (omega arith, inr (omega arith))
  ]

  fill-IsBatch :
      (passages tail : List ModelPassage) (start room : ℕ)
      → drop start passages ≡ tail
      → 1 ≤ length tail
      → 1 ≤ room
      → room ≡ p.max_passages
      → IsBatch passages (fill p tail room 0 false)
  fill-IsBatch passages [] start room e some_left some_room same = absurd (omega arith)
  fill-IsBatch passages (x ∷ xs) start zero e some_left some_room same = absurd (omega arith)
  fill-IsBatch passages (x ∷ xs) start (suc room) e some_left some_room same =
      let (rest, whole) = fill-prefix (x ∷ xs) (suc room) 0 false in
      let (not_empty, short) = fill-short x xs room in
      record {
        start = start;
        rest = rest;
        run = e ∙ whole;
        not_empty = not_empty;
        few = omega (arith, length-fill (x ∷ xs) (suc room) 0 false);
        short = short;
      }

  pub batch_from-IsBatch :
      (passages : List ModelPassage) (start : ℕ)
      → 1 ≤ p.max_passages
      → start < length passages
      → IsBatch passages (batch_from p passages start)
  batch_from-IsBatch passages start room left =
      fill-IsBatch passages (drop start passages) start p.max_passages refl
        (omega (arith, length-drop start passages (omega arith))) room refl
