-- ===== src/Citations/Documents/Resolved.antt =====
-- What resolve_document returns: the resolutions of a page of references and the citations found.
use tarkka.Prelude.{
  ℕ, suc, ◌≡◌, ap, sym, subst, ◌∙◌, Option, none, some, List, [], ◌∷◌, NoDup, nat_eq, lookup, ok,
  arith,
}
use tarkka.Citations.{WorkRelation, post_init}
use tarkka.Citations.Relations.{Relations}
use tarkka.Identifiers.{Unicode}
use tarkka.Citations.Resolution.{CitationResolution, Resolutions, BibliographicReference, Works}
use tarkka.Citations.Resolution.Justified.{IsJustified}
use tarkka.Citations.Catalog.{Catalog}
use tarkka.Citations.Documents.{Links, Clock, resolve, citation, cites_relation, cite, resolve_each}
use tarkka.Citations.Documents.Kept.{
  on_after, returned, IsCreated, get_or_create_relation-IsCreated, resolve-IsResolvedIn,
}
use tarkka.Citations.Documents.Outcomes.{done, next, AreCited, Outcome, ids_of, IsKeeping}

IsJustified-kept :
    (unicode : Unicode) (works : Works) (reference : BibliographicReference)
    (r : CitationResolution) (a b : Resolutions)
    → lookup reference.reference_id b ≡ lookup reference.reference_id a
    → IsJustified unicode works reference r a
    → IsJustified unicode works reference r b
IsJustified-kept unicode works reference r a b same j = record {
  named = j.named;
  backed = j.backed;
  kept = same ∙ j.kept;
}

module _ (unicode : Unicode) (works : Works) (links : Links) (clock : Clock) where
  -- One turn's relation, with what the call keeps.
  record IsCiting (citing : Option ℕ) (reference : BibliographicReference) (cited : Option ℕ)
      (rs : List WorkRelation) (before last : Catalog) : Type 0 where
    found : AreCited citing reference cited last rs
    relations :
        (id : ℕ) (r : WorkRelation)
        → lookup id before.relations ≡ some r
        → lookup id last.relations ≡ some r
    resolutions : last.resolutions ≡ before.resolutions
    references : last.references ≡ before.references

  citation_accepted :
      (citing : ℕ) (reference : BibliographicReference) (cited now : ℕ)
      → post_init (citation unicode works links clock citing reference cited now)
        ≡ ok (citation unicode works links clock citing reference cited now)
  unfolding post_init
  citation_accepted citing reference cited now = ground arith

  created :
      (citing : ℕ) (reference : BibliographicReference) (cited now : ℕ) (r : WorkRelation)
      (c last : Catalog)
      → cites_relation unicode works links clock citing reference cited now c ≡ (ok r, last)
      → IsCreated (citation unicode works links clock citing reference cited now) r c last
  unfolding cites_relation
  created citing reference cited now r c last h =
      get_or_create_relation-IsCreated
        (citation unicode works links clock citing reference cited now) r c last
        (rw (citation_accepted citing reference cited now) at h)

  uncited :
      (citing : Option ℕ) (reference : BibliographicReference) (cited : Option ℕ)
      (rs : List WorkRelation) (c last : Catalog)
      → AreCited citing reference cited last rs
      → c ≡ last
      → IsCiting citing reference cited rs c last
  uncited citing reference cited rs c last found kept = record {
    found = found;
    relations = λ id r there. ap (λ (x : Catalog). lookup id x.relations) (sym kept) ∙ there;
    resolutions = ap (λ (x : Catalog). x.resolutions) (sym kept);
    references = ap (λ (x : Catalog). x.references) (sym kept);
  }

  cite-IsCiting :
      (citing : Option ℕ) (reference : BibliographicReference) (cited : Option ℕ) (now : ℕ)
      (rs : List WorkRelation) (c last : Catalog)
      → cite unicode works links clock citing reference cited now c ≡ (ok rs, last)
      → IsCiting citing reference cited rs c last
  cite-IsCiting (some citing) reference (some cited) now rs c last h =
      on_after (cites_relation unicode works links clock citing reference cited now c) _ h
        λ r created_in stored h.
          let (same, kept) = returned h in
          let made = created citing reference cited now r c last (
            subst
              (λ (x : Catalog).
                cites_relation unicode works links clock citing reference cited now c ≡ (ok r, x))
              kept stored) in
          record {
            found = (
              r,
              sym same,
              record {
                from_work = made.same.subject_work_id;
                to_work = made.same.object_work_id;
                as_cites = made.same.kind;
                in_document = made.same.source_document_id;
                by_reference = made.same.source_reference_id;
                stored = made.kept;
              },
            );
            relations = made.others;
            resolutions = made.resolutions;
            references = made.references;
          }
  cite-IsCiting none reference cited now rs c last h =
      let (same, kept) = returned h in uncited none reference cited rs c last (sym same) kept
  cite-IsCiting (some citing) reference none now rs c last h =
      let (same, kept) = returned h in
      uncited (some citing) reference none rs c last (sym same) kept

  AreCited-kept :
      (citing : Option ℕ) (reference : BibliographicReference) (cited : Option ℕ)
      (rs : List WorkRelation) (c last : Catalog)
      → ((id : ℕ) (r : WorkRelation)
          → lookup id c.relations ≡ some r
          → lookup id last.relations ≡ some r)
      → AreCited citing reference cited c rs
      → AreCited citing reference cited last rs
  AreCited-kept (some citing) reference (some cited) rs c last kept (r, is, by) = (
    r,
    is,
    record {
      from_work = by.from_work;
      to_work = by.to_work;
      as_cites = by.as_cites;
      in_document = by.in_document;
      by_reference = by.by_reference;
      stored = kept r.relation_id r by.stored;
    },
  )
  AreCited-kept none reference cited rs c last kept h = h
  AreCited-kept (some citing) reference none rs c last kept h = h

  pub resolve_each-Outcome :
      (citing : Option ℕ) (references : List BibliographicReference) (turn : ℕ)
      (rs : List CitationResolution) (relations : List WorkRelation) (c last : Catalog)
      → resolve_each unicode works links clock citing references turn c ≡ (ok (rs, relations), last)
      → NoDup (ids_of references)
      → Outcome unicode works citing last references rs relations
        × IsKeeping (ids_of references) c last
  unfolding resolve_each
  resolve_each-Outcome citing [] turn rs relations c last h distinct =
      let (same, kept) = returned h in
      (
        subst
            (λ (x : List CitationResolution × List WorkRelation).
              Outcome unicode works citing last [] x.0 x.1)
            same done,
        record {
          resolutions = λ id e. ap (λ (x : Catalog). lookup id x.resolutions) (sym kept);
          relations = λ id r there. ap (λ (x : Catalog). lookup id x.relations) (sym kept) ∙ there;
          references = ap (λ (x : Catalog). x.references) (sym kept);
        },
      )
  resolve_each-Outcome citing (reference ∷ references) turn rs relations c last h distinct =
      let id = reference.reference_id in
      on_after (resolve unicode works links clock reference (clock.resolved_at turn) c) _ h
        λ r c1 resolved h.
          on_after
            (cite unicode works links clock citing reference r.work_id (clock.created_at turn) c1) _
            h
            λ cited c2 cited_in h.
              on_after (resolve_each unicode works links clock citing references (suc turn) c2) _ h
                λ (others, later) c3 rest h.
                  let (same, kept) = returned h in
                  let one =
                    resolve-IsResolvedIn unicode works links clock reference
                      (clock.resolved_at turn) r c c1 resolved in
                  let two =
                    cite-IsCiting citing reference r.work_id (clock.created_at turn) cited c1 c2
                      cited_in in
                  let (three, keeping) =
                    resolve_each-Outcome citing references (suc turn) others later c2 last
                      (subst
                        (λ (x : Catalog).
                          resolve_each unicode works links clock citing references (suc turn) c2
                          ≡ (ok (others, later), x))
                        kept rest)
                      distinct.1 in
                  let passed : (k : ℕ) → lookup k c2.resolutions ≡ lookup k c1.resolutions =
                    λ k. ap (λ (x : Resolutions). lookup k x) two.resolutions in
                  (
                    subst
                        (λ (x : List CitationResolution × List WorkRelation).
                          Outcome unicode works citing last (reference ∷ references) x.0 x.1)
                        same
                        (next cited later
                          (IsJustified-kept unicode works reference r c1.resolutions
                            last.resolutions (keeping.resolutions id distinct.0 ∙ passed id)
                            one.justified)
                          (AreCited-kept citing reference r.work_id cited c2 last keeping.relations
                            two.found)
                          three),
                    record {
                      resolutions = λ k e.
                          keeping.resolutions k (ground arith)
                          ∙ passed k
                          ∙ one.others k (ground arith);
                      relations = λ k x there. keeping.relations k x (
                          two.relations k x
                            (ap (λ (y : Relations). lookup k y) one.relations ∙ there));
                      references = keeping.references ∙ two.references ∙ one.references;
                    },
                  )
