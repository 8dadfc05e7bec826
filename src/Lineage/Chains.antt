-- ===== src/Lineage/Chains.antt =====
-- What the reads of a chain that returned went through.
use tarkka.Prelude.{
  ℕ, ◌≡◌, refl, ap, subst, inl, inr, Option, none, some, List, [], ◌∷◌, nat_beq, nat_beq_iff,
  nat_eq, lookup, All, Bool-cases, Result, Error, ok, err, ◌>>=◌, on_require, arith,
}
use tarkka.Lineage.Model.{ExtractionRun}
use tarkka.Lineage.{Readers, found, read_run, read_source, artifact_id_from_sha256}
use tarkka.Lineage.Results.{SourceLineage}

pub ok_injective : {A : Type 0} {a b : A} → ok a ≡ ok b → a ≡ b
ok_injective {a = a} e = ap (value_of a) e
  where
    value_of : {A : Type 0} → A → Result A → A
    value_of a (ok b) = b
    value_of a (err e) = a

some_injective : {A : Type 0} {a b : A} → some a ≡ some b → a ≡ b
some_injective {a = a} e = ap (value_of a) e
  where
    value_of : {A : Type 0} → A → Option A → A
    value_of a (some b) = b
    value_of a none = a

pub lookup-All {κ} :
    {V : Type 0} (P : ℕ × V → Type κ) (key : ℕ) (value : V) (items : List (ℕ × V))
    → lookup key items ≡ some value
    → All P items
    → P (key, value)
lookup-All P key value [] e a = absurd (ground arith)
lookup-All P key value (item ∷ items) e a = elim (Bool-cases (nat_beq item.0 key)) [
  | inl here ↦
      let same = (nat_beq_iff item.0 key).0 here in
      let it = some_injective (rw here at e) in subst P (λ i. (same i, it i)) a.0
  | inr later ↦ lookup-All P key value items (rw later at e) a.1
]

pub on_found :
    {A B : Type 0} {G : Type 0} (o : Option A) (raised : Error) (next : A → Result B) {r : B}
    → (found o (err raised) >>= next) ≡ ok r
    → ((a : A) → o ≡ some a → next a ≡ ok r → G)
    → G
on_found none raised next h k = cc
on_found (some a) raised next h k = k a refl h

module _ (readers : Readers) where
  pub read_run-eq-ok :
      (run_id document_id : ℕ) (run : ExtractionRun)
      → read_run readers run_id document_id ≡ ok run
      → (readers.get_run run_id ≡ some run)
        × (run.run_id ≡ run_id)
        × (run.document_id ≡ document_id)
  unfolding read_run
  read_run-eq-ok run_id document_id run h = on_found (readers.get_run run_id) _ _ h λ got there h.
      on_require (nat_beq got.run_id run_id) _ _ h λ same_id h.
        on_require (nat_beq got.document_id document_id) _ _ h λ same h.
          subst
            (λ (r : ExtractionRun).
              (readers.get_run run_id ≡ some r)
              × (r.run_id ≡ run_id)
              × (r.document_id ≡ document_id))
            (ok_injective h)
            (
              there,
              (nat_beq_iff got.run_id run_id).0 same_id,
              (nat_beq_iff got.document_id document_id).0 same,
            )

  -- The document and the artifact of a source, with what identifies them.
  pub record IsAnchored (document_id : ℕ) (source : SourceLineage) : Type 0 where
    pub document_found : readers.get_document document_id ≡ some source.document
    pub document_named : source.document.document_id ≡ document_id
    pub artifact_found : readers.get_artifact source.document.artifact_id ≡ some source.artifact
    pub artifact_named : source.artifact.artifact_id ≡ source.document.artifact_id
    pub by_content :
        source.artifact.artifact_id ≡ artifact_id_from_sha256 readers source.artifact.sha256

  pub read_source-IsAnchored :
      (document_id : ℕ) (source : SourceLineage)
      → read_source readers document_id ≡ ok source
      → IsAnchored document_id source
  unfolding read_source
  read_source-IsAnchored document_id source h =
      on_found (readers.get_document document_id) _ _ h λ document there h.
        on_require (nat_beq document.document_id document_id) _ _ h λ same h.
          on_found (readers.get_artifact document.artifact_id) _ _ h λ artifact stored h.
            on_require (nat_beq artifact.artifact_id document.artifact_id) _ _ h λ linked h.
              on_require
                (nat_beq artifact.artifact_id (artifact_id_from_sha256 readers artifact.sha256)) _ _
                h
                λ digest h. subst (IsAnchored document_id) (ok_injective h) record {
                  document_found = there;
                  document_named = (nat_beq_iff document.document_id document_id).0 same;
                  artifact_found = stored;
                  artifact_named = (nat_beq_iff artifact.artifact_id document.artifact_id).0 linked;
                  by_content =
                      (nat_beq_iff artifact.artifact_id
                          (artifact_id_from_sha256 readers artifact.sha256)).0
                        digest;
                }
