-- ===== src/Tests/Resolution.antt =====
-- Runs of the identifiers and of the resolution of references, and its theorems at concrete inputs.
use tarkka.Prelude.{
  ℕ, ◌≡◌, refl, subst, ◌⊎◌, ◌++◌, is_space, All, All-append_iff, true, ◌&&◌, some, none, [], ◌∷◌,
  map, arith, nat_eq, list_eq, list_beq, ◌==◌, leb, Text, codes, ok, err, value_error, ascii_lower,
  if◌then◌else◌,
}
use tarkka.Identifiers.{Unicode, normalize_doi, normalize_arxiv_id, is_doi}
use tarkka.Identifiers.Canonical.{IsUnicode, normalize_doi-canonical}
use tarkka.Citations.Resolution.{
  CitationResolution, resolved, unresolved, BibliographicReference, Works, resolve_reference,
}
use tarkka.Citations.Resolution.Settled.{IsSettled, save_all, save_all-IsSettled}
use tarkka.Citations.Resolution.Justified.{
  IsJustified, resolve_reference-IsJustified, resolve_reference-twice,
}

abbrev pub unicode : Unicode
unfolding ascii_lower
unicode = record { lower = map ascii_lower; is_decimal = λ c. leb 48 c && leb c 57 }

doi_lem :
    normalize_doi unicode (codes " https://doi.org/doi:10.1000/XYZ") ≡ ok (codes "10.1000/xyz")
unfolding normalize_doi ascii_lower
doi_lem = refl

doi_bad : normalize_doi unicode (codes "10.10/x") ≡ err (value_error "invalid DOI")
unfolding normalize_doi ascii_lower
doi_bad = refl

arxiv_lem : normalize_arxiv_id unicode (codes "arXiv:2101.00001v2") ≡ ok (codes "2101.00001")
unfolding normalize_arxiv_id ascii_lower
arxiv_lem = refl

arxiv_old :
    normalize_arxiv_id unicode (codes "https://arxiv.org/pdf/hep-th/9901001v1.pdf")
    ≡ ok (codes "hep-th/9901001")
unfolding normalize_arxiv_id ascii_lower
arxiv_old = refl

abbrev pub works : Works
unfolding list_beq
works = record {
  find_work_by_identifier = λ scheme value. if value == codes "10.1000/xyz" then some 9 else none;
  resolution_id = λ id. id;
}

abbrev pub reference : BibliographicReference
reference = record {
  reference_id = 3;
  document_id = 1;
  ordinal = 0;
  identifiers = (codes "DOI", codes "10.1000/XYZ") ∷ (codes "isbn", codes "123") ∷ [];
  source_observation_id = none;
}

abbrev pub resolution : CitationResolution
resolution = record {
  resolution_id = 3;
  reference_id = 3;
  status = resolved;
  work_id = some 9;
  candidate_work_ids = [];
  resolver = some (codes "canonical-identifiers-v1");
  source_observation_id = none;
  resolved_at = 50;
}

resolved_to :
    resolve_reference unicode works [] reference 50 ≡ ok (resolution, (3, resolution) ∷ [])
unfolding resolve_reference ascii_lower list_beq
resolved_to = refl

resolve_reference-IsJustified_example :
    IsJustified unicode works reference resolution ((3, resolution) ∷ [])
resolve_reference-IsJustified_example =
    resolve_reference-IsJustified unicode works [] ((3, resolution) ∷ []) reference 50 resolution
      resolved_to

resolve_reference-twice_example :
    resolve_reference unicode works ((3, resolution) ∷ []) reference 70
    ≡ ok (resolution, (3, resolution) ∷ [])
resolve_reference-twice_example =
    resolve_reference-twice unicode works [] ((3, resolution) ∷ []) reference 50 70 resolution
      resolved_to

abbrev regressed : CitationResolution
regressed = record resolution { status = unresolved; work_id = none }

resolution-IsSettled : IsSettled 3 9 ((3, resolution) ∷ [])
resolution-IsSettled = record {
  resolution = resolution;
  found = refl;
  resolved = refl;
  chosen = refl;
}

save_all-IsSettled_example : IsSettled 3 9 (save_all ((3, resolution) ∷ []) (regressed ∷ []))
save_all-IsSettled_example =
    save_all-IsSettled 3 9 ((3, resolution) ∷ []) (regressed ∷ []) resolution-IsSettled

lower_idem : (c : ℕ) → ascii_lower (ascii_lower c) ≡ ascii_lower c
unfolding ascii_lower
lower_idem c = ground arith

all_lower : (s : Text) → All (λ c. ascii_lower c ≡ c) (map ascii_lower s)
all_lower [] = tt
all_lower (c ∷ cs) = (lower_idem c, all_lower cs)

map_lower : (s : Text) → All (λ c. ascii_lower c ≡ c) s → map ascii_lower s ≡ s
map_lower [] h = refl
map_lower (c ∷ cs) h = λ i. h.0 i ∷ map_lower cs h.1 i

unicode-IsUnicode : IsUnicode unicode
unfolding ascii_lower is_space
unicode-IsUnicode = record {
  settled = λ s part (before, after, e).
      let lower = subst (All (λ c. ascii_lower c ≡ c)) e (all_lower s) in
      let (first, rest) =
        (All-append_iff (λ c. ascii_lower c ≡ c) before (part ++ after)).0 lower in
      map_lower part ((All-append_iff (λ c. ascii_lower c ≡ c) part after).0 rest).0;
  visible = λ c h. ground arith;
}

abbrev doi_text : Text
doi_text = codes "doi:10.1000/XYZ"

normalize_doi-canonical_example :
    ((doi : Text) × (normalize_doi unicode doi_text ≡ ok doi)
      × (is_doi unicode doi ≡ true)
      × (normalize_doi unicode doi ≡ ok doi))
    ⊎ (normalize_doi unicode doi_text ≡ err (value_error "DOI must not be blank"))
    ⊎ (normalize_doi unicode doi_text ≡ err (value_error "invalid DOI"))
normalize_doi-canonical_example = normalize_doi-canonical unicode doi_text unicode-IsUnicode
