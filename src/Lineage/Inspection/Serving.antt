-- ===== src/Lineage/Inspection/Serving.antt =====
-- A cached call beside the plain one, with the caches that it is given and leaves.
use tarkka.Prelude.{
  String, Bool, true, false, ℕ, ◌≡◌, refl, some, nat_eq, All, Result, ok, err, ◌>>=◌, ◌>>◌, require,
}
use tarkka.Lineage.Model.{ExtractionRun}
use tarkka.Lineage.{Readers, Caches, read_source}
use tarkka.Lineage.Results.{SourceLineage}

module _ (readers : Readers) where
  -- Every entry is what its key is read as.
  pub record AreRead (caches : Caches) : Type 0 where
    pub runs :
        All
          (λ (item : ℕ × ExtractionRun).
            (readers.get_run item.0 ≡ some item.1) × (item.1.run_id ≡ item.0))
          caches.runs
    pub sources :
        All (λ (item : ℕ × SourceLineage). read_source readers item.0 ≡ ok item.1) caches.sources

  -- A cached call returns what the plain one does, or raises the same, and keeps the caches right.
  abbrev pub Serves : {A : Type 0} → Result (A × Caches) → Result A → Type 0
  Serves (err e) plain = plain ≡ err e
  Serves (ok (a, caches)) plain = (plain ≡ ok a) × AreRead caches

  pub Serves-then :
      {A B : Type 0} (m : Result (A × Caches)) (p : Result A)
      (next : A × Caches → Result (B × Caches)) (plain : A → Result B)
      → Serves m p
      → ((a : A) (caches : Caches) → AreRead caches → Serves (next (a, caches)) (plain a))
      → Serves (m >>= next) (p >>= plain)
  Serves-then (err e) p next plain s h = rw s refl
  Serves-then (ok (a, caches)) p next plain s h = rw s.0 (h a caches s.1)

  pub Serves-both :
      {A B : Type 0} (m : Result A) (next : A → Result (B × Caches)) (plain : A → Result B)
      → ((a : A) → m ≡ ok a → Serves (next a) (plain a))
      → Serves (m >>= next) (m >>= plain)
  Serves-both (err e) next plain h = refl
  Serves-both (ok a) next plain h = h a refl

  pub Serves-check :
      {A : Type 0} (test : Bool) (message : String) (a : A) (caches : Caches)
      → AreRead caches
      → Serves (require test message >> ok (a, caches)) (require test message >> ok a)
  Serves-check true message a caches h = (refl, h)
  Serves-check false message a caches h = refl

  pub Serves-kept :
      {A : Type 0} (m : Result A) (caches : Caches)
      → AreRead caches
      → Serves (m >>= λ a. ok (a, caches)) m
  Serves-kept (err e) caches h = refl
  Serves-kept (ok a) caches h = (refl, h)

  pub Serves-read :
      {A : Type 0} (m : Result A) (add : A → Caches)
      → ((a : A) → m ≡ ok a → AreRead (add a))
      → Serves (m >>= λ a. ok (a, add a)) m
  Serves-read (err e) add h = refl
  Serves-read (ok a) add h = (refl, h a refl)
