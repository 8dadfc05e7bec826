-- ===== src/Citations/Resolution/Kept.antt =====
-- What `keep_or_save` returns: the stored resolution if it agrees, or the new one, stored.
use tarkka.Prelude.{
  ℕ, ◌≡◌, ap, sym, subst, ◌∙◌, inl, inr, ◌⊎◌, true, false, some, nat_eq, lookup, Result, ok, on_ok,
  arith, Bool-cases, Option-cases,
}
use tarkka.Citations.Resolution.{
  CitationResolution, Resolutions, same_resolution, same_payload, save_resolution, save_over,
  stored, save_new, keep_or_save,
}

ok-pair :
    (a c : CitationResolution) (b d : Resolutions)
    → ◌≡◌ {A = Result (CitationResolution × Resolutions)} (ok (a, b)) (ok (c, d))
    → (a ≡ c) × (b ≡ d)
ok-pair a c b d e = (cc, cc)

module _ (resolutions : Resolutions) where
  -- A save of a resolution that differs from the one stored, if there is one, stores it.
  saved_stored :
      (r : CitationResolution) (saved : Resolutions)
      → ((existing : CitationResolution)
          → lookup r.reference_id resolutions ≡ some existing
          → same_resolution existing r ≡ false)
      → save_resolution resolutions r ≡ ok saved
      → saved ≡ stored resolutions r
  unfolding save_resolution same_payload
  saved_stored r saved differs h = elim (Option-cases (lookup r.reference_id resolutions)) [
    | inl missing ↦ let e : ok (stored resolutions r) ≡ ok saved = rw missing at h in cc
    | inr (existing, there) ↦
        let call : save_over resolutions r (some existing) ≡ ok saved = rw there at h in
        ground (arith, differs existing there, call)
  ]

  module _ (reference_id : ℕ) (made r : CitationResolution) (saved : Resolutions) where
    new_saved :
        made.reference_id ≡ reference_id
        → ((existing : CitationResolution)
            → lookup reference_id resolutions ≡ some existing
            → same_resolution existing made ≡ false)
        → save_new resolutions made ≡ ok (r, saved)
        → (saved ≡ stored resolutions made) × (r ≡ made)
    new_saved named differs call =
        on_ok (save_resolution resolutions made) (λ s. ok (made, s)) call
          λ s e last.
            let (first, second) = ok-pair made r s saved last in
            (
              sym second
                  ∙ saved_stored made s
                      (λ existing there.
                        differs existing (ap (λ (k : ℕ). lookup k resolutions) (sym named) ∙ there))
                      e,
              sym first,
            )

    pub keep_cases :
        made.reference_id ≡ reference_id
        → keep_or_save resolutions (lookup reference_id resolutions) made ≡ ok (r, saved)
        → ((saved ≡ resolutions)
            × (lookup reference_id resolutions ≡ some r)
            × (same_resolution r made ≡ true))
          ⊎ ((saved ≡ stored resolutions made) × (r ≡ made))
    keep_cases named call = elim (Option-cases (lookup reference_id resolutions)) [
      | inl missing ↦ inr (
          new_saved named (λ existing there. absurd (ground (arith, missing, there)))
            (rw missing at call))
      | inr (existing, there) ↦ elim (Bool-cases (same_resolution existing made)) [
        | inl same ↦
            let (first, second) = ok-pair existing r resolutions saved (rw (there, same) at call) in
            inl (
              sym second,
              there ∙ ap some first,
              subst (λ (x : CitationResolution). same_resolution x made ≡ true) first same,
            )
        | inr other ↦ inr (
            new_saved named
              (λ k found_k.
                let both : some existing ≡ some k = sym there ∙ found_k in
                let e : existing ≡ k = cc in
                subst (λ (x : CitationResolution). same_resolution x made ≡ false) e other)
              (rw (there, other) at call))
      ]
    ]
