-- ===== src/Robots/Rules/Precedence.antt =====
-- Which rules of a robots file decide about a target.
use tarkka.Prelude.{
  ◌≤◌, ◌≡◌, refl, ◌↔◌, ◌⊎◌, inl, inr, true, List, [], ◌∷◌, arith, nat_beq, nat_beq_iff, filter, All,
  Any, All-mono, All-trivial, Any-mono, All-append_iff, Any-append_iff, All-filter_iff,
  Any-filter_iff, any-Any_iff, maximum, All-le_maximum, maximum-le, Text, ends_with,
}
use tarkka.Robots.Patterns.{body_of, pattern_matches}
use tarkka.Robots.Patterns.Meaning.{IsMatch, pattern_matches_iff}
use tarkka.Robots.Rules.{RobotsRule, RobotsGroup, specificity, matching_rules, permits}

-- An `allow` rule that no rule of the list is more specific than.
abbrev IsDecisive : List RobotsRule → RobotsRule → Type 0
IsDecisive rules r =
    (r.allow ≡ true) × All (λ (other : RobotsRule). specificity other ≤ specificity r) rules

permits_iff :
    (rules : List RobotsRule)
    → (permits rules ≡ true) ↔ (All (λ (r : RobotsRule). ⊥) rules ⊎ Any (IsDecisive rules) rules)
unfolding permits
permits_iff [] = (λ h. inl tt, λ h. refl)
permits_iff (rule ∷ rules) =
    let matches = rule ∷ rules in
    let most = maximum specificity matches in
    let top = λ (r : RobotsRule). nat_beq (specificity r) most in
    let allowed = any-Any_iff (λ (r : RobotsRule). r.allow) (filter top matches) in
    let filtered = Any-filter_iff (λ (r : RobotsRule). r.allow ≡ true) top matches in
    let below = All-le_maximum specificity matches in
    (
      λ h. inr (
          Any-mono {R = λ (r : RobotsRule). Unit {0}} matches
            (λ r u (e, a). (
              a,
              All-mono matches
                  (λ other le. omega (arith, le, (nat_beq_iff (specificity r) most).0 e)) below,
            ))
            (All-mono matches (λ r le. tt) below) (filtered.0 (allowed.0 h))),
      λ h. elim h [
        | inl none_matches ↦ absurd none_matches.0
        | inr some_decides ↦ allowed.1 (
            filtered.1 (
              Any-mono matches
                (λ r le (a, others). (
                  (nat_beq_iff (specificity r) most).1
                      (omega (arith, le, maximum-le specificity (specificity r) matches others)),
                  a,
                ))
                below some_decides))
      ],
    )

-- The rule's pattern reads as the target.
abbrev pub Matches : Text → RobotsRule → Type 0
Matches target r = IsMatch (ends_with (b'$' ∷ []) r.pattern) (body_of r.pattern) target

abbrev pub EveryRule : (RobotsRule → Type 0) → List RobotsGroup → Type 0
EveryRule P groups = All (λ (group : RobotsGroup). All P group.rules) groups

abbrev pub SomeRule : (RobotsRule → Type 0) → List RobotsGroup → Type 0
SomeRule P groups = Any (λ (group : RobotsGroup). Any P group.rules) groups

module _ (target : Text) (P : RobotsRule → Type 0) where
  EveryRule-matching :
      (groups : List RobotsGroup)
      → All P (matching_rules groups target) ↔ EveryRule (λ r. Matches target r → P r) groups
  unfolding matching_rules
  EveryRule-matching [] = (λ a. a, λ a. a)
  EveryRule-matching (group ∷ groups) =
      let test = λ (r : RobotsRule). pattern_matches r.pattern target in
      let split = All-append_iff P (filter test group.rules) (matching_rules groups target) in
      let here = All-filter_iff P test group.rules in
      let later = EveryRule-matching groups in
      (
        λ a.
            let (b, c) = split.0 a in
            (
              All-mono group.rules (λ r f m. f ((pattern_matches_iff r.pattern target).1 m))
                  (here.0 b),
              later.0 c,
            ),
        λ (b, c). split.1 (
          here.1 (All-mono group.rules (λ r f m. f ((pattern_matches_iff r.pattern target).0 m)) b),
          later.1 c,
        ),
      )

  SomeRule-matching :
      (groups : List RobotsGroup)
      → Any P (matching_rules groups target) ↔ SomeRule (λ r. Matches target r × P r) groups
  unfolding matching_rules
  SomeRule-matching [] = (λ a. a, λ a. a)
  SomeRule-matching (group ∷ groups) =
      let test = λ (r : RobotsRule). pattern_matches r.pattern target in
      let split = Any-append_iff P (filter test group.rules) (matching_rules groups target) in
      let here = Any-filter_iff P test group.rules in
      let later = SomeRule-matching groups in
      (
        λ a. elim (split.0 a) [
          | inl b ↦ inl (
              Any-mono {R = λ (r : RobotsRule). Unit {0}} group.rules
                (λ r u (m, p). ((pattern_matches_iff r.pattern target).0 m, p))
                (All-trivial group.rules) (here.0 b))
          | inr c ↦ inr (later.0 c)
        ],
        λ a. split.1 (elim a [
          | inl b ↦ inl (
              here.1 (
                Any-mono {R = λ (r : RobotsRule). Unit {0}} group.rules
                  (λ r u (m, p). ((pattern_matches_iff r.pattern target).1 m, p))
                  (All-trivial group.rules) b))
          | inr c ↦ inr (later.1 c)
        ]),
      )

SomeRule-mono :
    {P Q : RobotsRule → Type 0} (groups : List RobotsGroup)
    → ((r : RobotsRule) → P r → Q r)
    → SomeRule P groups
    → SomeRule Q groups
SomeRule-mono groups h =
    Any-mono {R = λ (group : RobotsGroup). Unit {0}} groups
      (λ group u.
        Any-mono {R = λ (r : RobotsRule). Unit {0}} group.rules (λ r u' p. h r p)
          (All-trivial group.rules))
      (All-trivial groups)

-- No rule matches, or an `allow` rule that matches is as specific as every rule that does.
abbrev pub IsPermitted : List RobotsGroup → Text → Type 0
IsPermitted groups target =
    EveryRule (λ r. Matches target r → ⊥) groups
    ⊎ SomeRule
        (λ r.
          Matches target r
          × (r.allow ≡ true)
          × EveryRule (λ other. Matches target other → specificity other ≤ specificity r) groups)
        groups

-- The rules that apply permit a target exactly when none of them matches it or an `allow` rule that
-- matches it is at least as specific as every other rule that does.
pub permits-IsPermitted_iff :
    (groups : List RobotsGroup) (target : Text)
    → (permits (matching_rules groups target) ≡ true) ↔ IsPermitted groups target
permits-IsPermitted_iff groups target =
    let rules = matching_rules groups target in
    let decided = permits_iff rules in
    let unmatched = EveryRule-matching target (λ (r : RobotsRule). ⊥) groups in
    let matched = SomeRule-matching target (IsDecisive rules) groups in
    let others = λ (r : RobotsRule).
      EveryRule-matching target (λ (other : RobotsRule). specificity other ≤ specificity r)
        groups in
    (
      λ h. elim (decided.0 h) [
        | inl a ↦ inl (unmatched.0 a)
        | inr b ↦
            inr
              (SomeRule-mono groups (λ r (m, (a, below)). (m, a, (others r).0 below)) (matched.0 b))
      ],
      λ h. decided.1 (elim h [
        | inl a ↦ inl (unmatched.1 a)
        | inr b ↦
            inr
              (matched.1 (SomeRule-mono groups (λ r (m, a, below). (m, (a, (others r).1 below))) b))
      ]),
    )
