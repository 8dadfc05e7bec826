-- ===== src/Citations/Documents/Kept.antt =====
-- What the calls of resolve_document store, and what they leave alone in the catalog.
use tarkka.Prelude.{
  ℕ, ◌≡◌, refl, ap, sym, subst, ◌∙◌, inl, inr, false, none, some, nat_beq, nat_beq_iff, nat_eq,
  lookup, lookup-put, lookup-put_ne, put, Result, ok, err, Bool-cases, Option-cases, Result-cases,
}
use tarkka.Citations.{WorkRelation}
use tarkka.Citations.Equality.{same_identity, same_identity_refl, IsSame, same_identity-IsSame}
use tarkka.Identifiers.{Unicode}
use tarkka.Citations.Resolution.{
  CitationResolution, BibliographicReference, Works, resolve_reference,
}
use tarkka.Citations.Resolution.Justified.{
  IsJustified, resolve_reference-IsJustified, resolve_reference-lookup_ne,
}
use tarkka.Citations.Catalog.{Catalog, Action, after, reuse_or_create, get_or_create_relation}
use tarkka.Citations.Documents.{Links, Clock, resolve}

-- A call that returned, and what came after it.
pub on_after {κ} :
    {A B : Type 0} {G : Type κ} (called : Result A × Catalog) (next : A → Action B) {b : B}
    {last : Catalog}
    → after called next ≡ (ok b, last)
    → ((a : A) (c : Catalog) → called ≡ (ok a, c) → next a c ≡ (ok b, last) → G)
    → G
on_after (ok a, c) next h k = k a c refl h
on_after (err e, c) next h k = cc

-- A computation that left the catalog alone.
pub on_lift {κ} :
    {A B : Type 0} {G : Type κ} (result : Result A) (next : A → Action B) {b : B} (c : Catalog)
    {last : Catalog}
    → after (result, c) next ≡ (ok b, last)
    → ((a : A) → result ≡ ok a → next a c ≡ (ok b, last) → G)
    → G
on_lift (ok a) next c h k = k a refl h
on_lift (err e) next c h k = cc

pub returned :
    {A : Type 0} {a b : A} {c d : Catalog}
    → ◌≡◌ {A = Result A × Catalog} (ok a, c) (ok b, d)
    → (a ≡ b) × (c ≡ d)
returned e = (cc, cc)

-- The relation that is stored for a citation, and what the call keeps.
pub record IsCreated (relation made : WorkRelation) (before last : Catalog) : Type 0 where
  pub same : IsSame made relation
  pub kept : lookup made.relation_id last.relations ≡ some made
  pub others :
      (id : ℕ) (r : WorkRelation)
      → lookup id before.relations ≡ some r
      → lookup id last.relations ≡ some r
  pub resolutions : last.resolutions ≡ before.resolutions
  pub references : last.references ≡ before.references

IsCreated-new :
    (relation : WorkRelation) (c : Catalog)
    → lookup relation.relation_id c.relations ≡ none
    → IsCreated relation relation c
        (record c { relations = put relation.relation_id relation c.relations })
IsCreated-new relation c missing = record {
  same = same_identity-IsSame relation relation (same_identity_refl relation);
  kept = lookup-put relation.relation_id relation c.relations;
  others = λ id r there. elim (Bool-cases (nat_beq relation.relation_id id)) [
    | inl here ↦
        let same = (nat_beq_iff relation.relation_id id).0 here in
        let lost : none ≡ some r =
          sym missing ∙ ap (λ (k : ℕ). lookup k c.relations) same ∙ there in
        cc
    | inr other ↦ lookup-put_ne relation.relation_id id relation c.relations other ∙ there
  ];
  resolutions = refl;
  references = refl;
}

pub get_or_create_relation-IsCreated :
    (relation made : WorkRelation) (c last : Catalog)
    → get_or_create_relation relation c ≡ (ok made, last)
    → IsCreated relation made c last
unfolding get_or_create_relation
get_or_create_relation-IsCreated relation made c last h =
    elim (Option-cases (lookup relation.relation_id c.relations)) [
      | inl missing ↦
          let (same, kept) = returned (rw missing at h) in
          subst (λ (r : WorkRelation). IsCreated relation r c last) same
            (subst (IsCreated relation relation c) kept (IsCreated-new relation c missing))
      | inr (existing, there) ↦
          let call : reuse_or_create relation (some existing) c ≡ (ok made, last) = rw there at h in
          elim (Bool-cases (same_identity existing relation)) [
            | inr other ↦ let lost = rw other at call in cc
            | inl same ↦
                let (found, kept) = returned (rw same at call) in
                let is = same_identity-IsSame existing relation same in
                subst (λ (r : WorkRelation). IsCreated relation r c last) found
                  (subst (IsCreated relation existing c) kept record {
                    same = is;
                    kept = ap (λ (k : ℕ). lookup k c.relations) is.relation_id ∙ there;
                    others = λ id r e. e;
                    resolutions = refl;
                    references = refl;
                  })
          ]
    ]

-- The resolution of a reference on the catalog, and what the call keeps.
pub record IsResolvedIn (unicode : Unicode) (works : Works) (reference : BibliographicReference)
    (r : CitationResolution) (before last : Catalog) : Type 0 where
  pub justified : IsJustified unicode works reference r last.resolutions
  pub others :
      (id : ℕ)
      → nat_beq reference.reference_id id ≡ false
      → lookup id last.resolutions ≡ lookup id before.resolutions
  pub relations : last.relations ≡ before.relations
  pub references : last.references ≡ before.references

module _ (unicode : Unicode) (works : Works) (links : Links) (clock : Clock) where
  pub resolve-IsResolvedIn :
      (reference : BibliographicReference) (now : ℕ) (r : CitationResolution) (c last : Catalog)
      → resolve unicode works links clock reference now c ≡ (ok r, last)
      → IsResolvedIn unicode works reference r c last
  resolve-IsResolvedIn reference now r c last h =
      elim (Result-cases (resolve_reference unicode works c.resolutions reference now)) [
        | inr (raised, e) ↦ let lost = rw e at h in cc
        | inl ((made, saved), e) ↦
            let (same, kept) = returned (rw e at h) in
            subst (λ (x : CitationResolution). IsResolvedIn unicode works reference x c last) same
              (subst (IsResolvedIn unicode works reference made c) kept record {
                justified =
                    resolve_reference-IsJustified unicode works c.resolutions saved reference now
                      made e;
                others = λ id ne.
                    resolve_reference-lookup_ne unicode works c.resolutions saved reference now made
                      id e ne;
                relations = refl;
                references = refl;
              })
      ]
