-- ===== src/Crawl/Eligibility.antt =====
-- application/crawl_eligibility.py
use tarkka.Prelude.{
  ◌≡◌, refl, ◌↔◌, Bool, true, false, ◌&&◌, arith, if◌then◌else◌, Result, ok, ◌>>=◌, ◌>>◌, require,
  on_ok, list_beq_iff, Bool-cases, inl, inr, on_require, ◌==◌, nat_eq, list_eq, Text,
}
use tarkka.Traversal.Target.{UriNormalizer}
use tarkka.Robots.Access.{CrawlAccessDecision}
use tarkka.Crawl.Rights.{RightsAccessDecision, allows, retrieve}

pub data CrawlEligibilityReason : Type 0 where
  allowed robots_or_technical_deny rights_retrieval_deny : CrawlEligibilityReason

pub record CrawlEligibilityDecision : Type 0 where
  pub target_uri : Text
  pub is_allowed : Bool
  pub reason : CrawlEligibilityReason
  pub crawl : CrawlAccessDecision
  pub rights : RightsAccessDecision

-- _expected_eligibility
unfoldable pub expected_eligibility :
    CrawlAccessDecision → RightsAccessDecision → Bool × CrawlEligibilityReason
expected_eligibility crawl rights =
    if crawl.allowed
    then (if rights.retrieval_allowed then (true, allowed) else (false, rights_retrieval_deny))
    else (false, robots_or_technical_deny)

abbrev pub same_reason : CrawlEligibilityReason → CrawlEligibilityReason → Bool
same_reason allowed allowed = true
same_reason robots_or_technical_deny robots_or_technical_deny = true
same_reason rights_retrieval_deny rights_retrieval_deny = true
same_reason _ _ = false

abbrev pub same_bool : Bool → Bool → Bool
same_bool true b = b
same_bool false b = if b then false else true

-- CrawlEligibilityDecision.__post_init__
unfoldable pub post_init :
    UriNormalizer → CrawlEligibilityDecision → Result CrawlEligibilityDecision
unfolding expected_eligibility
post_init uris d = do
  uri ← uris.normalize d.target_uri
  require (d.crawl.target_uri == uri && d.rights.target_uri == uri)
      "crawl and rights decisions must refer to the same target URI"
  require
      (same_bool d.is_allowed (expected_eligibility d.crawl d.rights).0
        && same_reason d.reason (expected_eligibility d.crawl d.rights).1)
      "crawl eligibility result is inconsistent with its policy decisions"
  ok (record d { target_uri = uri })

-- combine_crawl_eligibility
unfoldable pub combine_crawl_eligibility :
    UriNormalizer → CrawlAccessDecision → RightsAccessDecision → Result CrawlEligibilityDecision
unfolding post_init
combine_crawl_eligibility uris crawl rights = do
  require (crawl.target_uri == rights.target_uri)
      "crawl and rights decisions must refer to the same target URI"
  post_init uris (record {
    target_uri = crawl.target_uri;
    is_allowed = (expected_eligibility crawl rights).0;
    reason = (expected_eligibility crawl rights).1;
    crawl = crawl;
    rights = rights;
  })

allowed_iff :
    (crawl : CrawlAccessDecision) (rights : RightsAccessDecision)
    → ((expected_eligibility crawl rights).0 ≡ true)
      ↔ ((crawl.allowed ≡ true) × (allows rights retrieve ≡ true))
unfolding expected_eligibility allows
allowed_iff crawl rights = ground arith

-- What each reason of a combined decision stands for.
abbrev pub IsReason : CrawlAccessDecision → RightsAccessDecision → CrawlEligibilityReason → Type 0
IsReason crawl rights allowed = (crawl.allowed ≡ true) × (allows rights retrieve ≡ true)
IsReason crawl rights robots_or_technical_deny = crawl.allowed ≡ false
IsReason crawl rights rights_retrieval_deny =
    (crawl.allowed ≡ true) × (allows rights retrieve ≡ false)

expected-IsReason :
    (crawl : CrawlAccessDecision) (rights : RightsAccessDecision)
    → IsReason crawl rights (expected_eligibility crawl rights).1
unfolding expected_eligibility allows
expected-IsReason crawl rights = elim (Bool-cases crawl.allowed) [
  | inl c ↦ elim (Bool-cases rights.retrieval_allowed) [
    | inl r ↦ rw (c, r) (refl, refl)
    | inr r ↦ rw (c, r) (refl, refl)
  ]
  | inr c ↦ rw c refl
]

same_reason-eq : (a b : CrawlEligibilityReason) → same_reason a b ≡ true → a ≡ b
same_reason-eq a b h = ground arith

-- A combined decision keeps both of its parts, which are for one and the same target, the target of
-- the decision. It allows the target exactly when both parts do, so that rights never weaken what
-- robots and the technical policy deny, and its reason says which part denied.
pub combine_crawl_eligibility_iff :
    (uris : UriNormalizer) (crawl : CrawlAccessDecision) (rights : RightsAccessDecision)
    {d : CrawlEligibilityDecision}
    → combine_crawl_eligibility uris crawl rights ≡ ok d
    → (d.crawl ≡ crawl)
      × (d.rights ≡ rights)
      × ((d.is_allowed ≡ true) ↔ ((crawl.allowed ≡ true) × (allows rights retrieve ≡ true)))
      × (crawl.target_uri ≡ rights.target_uri)
      × (d.target_uri ≡ crawl.target_uri)
      × IsReason crawl rights d.reason
unfolding combine_crawl_eligibility post_init
combine_crawl_eligibility_iff uris crawl rights {d} h =
    let expected = expected_eligibility crawl rights in
    on_require (crawl.target_uri == rights.target_uri) _ _ h λ t h1.
      on_ok (uris.normalize crawl.target_uri) _ h1 λ uri n h2.
        on_require (crawl.target_uri == uri && rights.target_uri == uri) _ _ h2 λ t' h3.
          on_require (same_bool expected.0 expected.0 && same_reason expected.1 expected.1) _ _ h3
            λ t'' h4.
              let e : d.is_allowed ≡ expected.0 = cc in
              let why : d.reason ≡ expected.1 = cc in
              let same_target : d.target_uri ≡ crawl.target_uri =
                ground (arith, list_beq_iff crawl.target_uri uri) in
              (
                cc,
                cc,
                rw e (allowed_iff crawl rights),
                (list_beq_iff crawl.target_uri rights.target_uri).0 t,
                same_target,
                rw why (expected-IsReason crawl rights),
              )
