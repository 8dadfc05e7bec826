-- ===== src/Robots/Access/Justified.antt =====
-- Every decision of `evaluate_robots_access` states the reason that holds.
use tarkka.Prelude.{
  ℕ, max, ◌≡◌, refl, if◌then◌else◌, Bool, true, false, Option, [], arith, Bool-cases, inl, inr, ok,
  on_ok, on_require, Text, ◌==◌, nat_eq, list_eq, strip,
}
use tarkka.Acquisition.Policy.{ResourceAcquisitionPolicy, allows_uri}
use tarkka.Traversal.Frontier.{Environment}
use tarkka.Robots.Rules.{RobotsRules, can_fetch, crawl_delay, is_product_token}
use tarkka.Robots.Rules.Parsing.{parse}
use tarkka.Robots.Access.{
  RobotsFetchOutcome, RobotsFetchResult, CrawlAccessReason, CrawlAccessDecision, decided, decision,
  evaluate_rules, evaluate_outcome, evaluate_robots_access, robots_uri_for, or_default, success,
  unavailable, unreachable, redirect_limit_exceeded, technical_policy_deny, robots_allow,
  robots_disallow, robots_unavailable, robots_unreachable, robots_redirect_limit,
}

module _ (env : Environment) (policy : ResourceAcquisitionPolicy) (product_token : Text)
    (robots : RobotsFetchResult) where
  -- The policy lets the target through, and the fetch of the robots file had this outcome.
  pub record IsReached (target_uri : Text) (outcome : RobotsFetchOutcome) : Type 0 where
    pub in_policy : allows_uri env.library policy target_uri ≡ true
    pub ended : robots.outcome ≡ outcome

  -- The rules of the robots file decide.
  pub record IsRuled (target_uri : Text) (allowed : Bool) (interval : ℕ) : Type 0 where
    pub target : Text
    pub rules : RobotsRules
    pub delay : Option ℕ
    pub reached : IsReached target_uri success
    pub normalized : env.uris.normalize target_uri ≡ ok target
    pub parsed : parse env.library (or_default robots.content []) ≡ ok rules
    pub paced : crawl_delay rules product_token ≡ ok delay
    pub fetched : can_fetch env.library rules target product_token ≡ ok allowed
    pub strictest : interval ≡ max policy.min_request_interval_seconds (or_default delay 0)

  abbrev pub IsBase : ℕ → Type 0
  IsBase interval = interval ≡ policy.min_request_interval_seconds

  -- What each reason stands for, the decision and the pacing that go with it included.
  abbrev pub IsJustified : Text → CrawlAccessReason → Bool → ℕ → Type 0
  IsJustified uri technical_policy_deny allowed interval =
      (allows_uri env.library policy uri ≡ false) × (allowed ≡ false) × IsBase interval
  IsJustified uri robots_unavailable allowed interval =
      IsReached uri unavailable × (allowed ≡ true) × IsBase interval
  IsJustified uri robots_unreachable allowed interval =
      IsReached uri unreachable × (allowed ≡ false) × IsBase interval
  IsJustified uri robots_redirect_limit allowed interval =
      IsReached uri redirect_limit_exceeded × (allowed ≡ false) × IsBase interval
  IsJustified uri robots_allow allowed interval = IsRuled uri true interval × (allowed ≡ true)
  IsJustified uri robots_disallow allowed interval = IsRuled uri false interval × (allowed ≡ false)

  -- A decision that the constructor returns keeps what it was given.
  pub record IsDecision (target : Text) (allowed : Bool) (reason : CrawlAccessReason) (interval : ℕ)
      (d : CrawlAccessDecision) : Type 0 where
    pub for_target : env.uris.normalize target ≡ ok d.target_uri
    pub same_allowed : d.allowed ≡ allowed
    pub same_reason : d.reason ≡ reason
    pub same_interval : d.effective_min_request_interval_seconds ≡ interval

  decision-IsDecision :
      {target : Text} (allowed : Bool) (reason : CrawlAccessReason) (interval : ℕ)
      {d : CrawlAccessDecision}
      → decision env policy product_token robots target allowed reason interval ≡ ok d
      → IsDecision target allowed reason interval d
  unfolding decision decided
  decision-IsDecision {target} allowed reason interval h =
      on_ok (env.uris.normalize target) _ h λ a e h1.
        on_ok (env.uris.normalize robots.robots_uri) _ h1 λ b e' h2.
          on_require (is_product_token (strip product_token)) _ _ h2 λ t h3. record {
            for_target = cc;
            same_allowed = cc;
            same_reason = cc;
            same_interval = cc;
          }

  abbrev Explains : Text → Text → CrawlAccessDecision → Type 0
  Explains target_uri target d =
      (env.uris.normalize target ≡ ok d.target_uri)
      × IsJustified target_uri d.reason d.allowed d.effective_min_request_interval_seconds

  decision-Explains :
      (target_uri : Text) {target : Text} (allowed : Bool) (reason : CrawlAccessReason)
      (interval : ℕ) {d : CrawlAccessDecision}
      → IsJustified target_uri reason allowed interval
      → decision env policy product_token robots target allowed reason interval ≡ ok d
      → Explains target_uri target d
  decision-Explains target_uri allowed reason interval {d} j h =
      let k = decision-IsDecision allowed reason interval h in
      (k.for_target, rw (k.same_reason, k.same_allowed, k.same_interval) j)

  ruled-IsJustified :
      {target_uri : Text} (allowed : Bool) (interval : ℕ)
      → IsRuled target_uri allowed interval
      → IsJustified target_uri (if allowed then robots_allow else robots_disallow) allowed interval
  ruled-IsJustified true interval r = (r, refl)
  ruled-IsJustified false interval r = (r, refl)

  evaluate_rules-Explains :
      {target_uri target : Text} {d : CrawlAccessDecision}
      → env.uris.normalize target_uri ≡ ok target
      → IsReached target_uri success
      → evaluate_rules env policy product_token robots target ≡ ok d
      → Explains target_uri target d
  unfolding evaluate_rules
  evaluate_rules-Explains {target_uri} {target} n reached h =
      on_ok (parse env.library (or_default robots.content [])) _ h λ rules e h1.
        on_ok (crawl_delay rules product_token) _ h1 λ delay e' h2.
          on_ok (can_fetch env.library rules target product_token) _ h2 λ allowed e'' h3.
            let interval = max policy.min_request_interval_seconds (or_default delay 0) in
            let ruled : IsRuled target_uri allowed interval = record {
              target = target;
              rules = rules;
              delay = delay;
              reached = reached;
              normalized = n;
              parsed = e;
              paced = e';
              fetched = e'';
              strictest = refl;
            } in
            decision-Explains target_uri allowed (if allowed then robots_allow else robots_disallow)
              interval (ruled-IsJustified allowed interval ruled) h3

  evaluate_outcome-Explains :
      {target_uri target : Text} (outcome : RobotsFetchOutcome) {d : CrawlAccessDecision}
      → env.uris.normalize target_uri ≡ ok target
      → IsReached target_uri outcome
      → evaluate_outcome env policy product_token robots target outcome ≡ ok d
      → Explains target_uri target d
  unfolding evaluate_outcome
  evaluate_outcome-Explains {target_uri} success n reached h = evaluate_rules-Explains n reached h
  evaluate_outcome-Explains {target_uri} unavailable n reached h =
      decision-Explains target_uri true robots_unavailable policy.min_request_interval_seconds
        (reached, refl, refl) h
  evaluate_outcome-Explains {target_uri} unreachable n reached h =
      decision-Explains target_uri false robots_unreachable policy.min_request_interval_seconds
        (reached, refl, refl) h
  evaluate_outcome-Explains {target_uri} redirect_limit_exceeded n reached h =
      decision-Explains target_uri false robots_redirect_limit policy.min_request_interval_seconds
        (reached, refl, refl) h

  -- A decision about a target is for its URI, normalized twice, and justified by its reason: only a
  -- target that the policy allows is allowed, and then either the robots file was unavailable, with
  -- the pacing of the policy, or its rules let the target, normalized once, be fetched, with the
  -- longer of the two intervals.
  pub evaluate_robots_access-IsJustified :
      (target_uri : Text) {d : CrawlAccessDecision}
      → evaluate_robots_access env policy product_token robots target_uri ≡ ok d
      → (target : Text) × (env.uris.normalize target_uri ≡ ok target)
        × (env.uris.normalize target ≡ ok d.target_uri)
        × IsJustified target_uri d.reason d.allowed d.effective_min_request_interval_seconds
  unfolding evaluate_robots_access
  evaluate_robots_access-IsJustified target_uri {d} h =
      on_ok (env.uris.normalize target_uri) _ h λ target n h1.
        on_ok (robots_uri_for env target) _ h1 λ expected e h2.
          on_require (robots.robots_uri == expected) _ _ h2 λ t h3.
            let explained : Explains target_uri target d =
              elim (Bool-cases (allows_uri env.library policy target_uri)) [
                | inl inside ↦
                    evaluate_outcome-Explains robots.outcome {d = d} n
                      (record { in_policy = inside; ended = refl }) (ground arith)
                | inr outside ↦
                    decision-Explains target_uri false technical_policy_deny
                      policy.min_request_interval_seconds {d = d} (outside, refl, refl)
                      (ground arith)
              ] in
            (target, n, explained.0, explained.1)
