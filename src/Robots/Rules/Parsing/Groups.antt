-- ===== src/Robots/Rules/Parsing/Groups.antt =====
-- The groups that `parse` builds.
use tarkka.Prelude.{
  ℕ, ◌≡◌, refl, Bool, true, false, not, ◌||◌, List, [], ◌∷◌, map, arith, leb, nat_beq, sum,
  Bool-cases, inl, inr, all, All, All-append, Result, ok, err, on_require, ◌==◌, nat_eq, list_eq,
  list_beq_iff, list_beq, contains, Text, codes, is_empty, strip, ascii_lower,
}
use tarkka.Acquisition.Library.{Library}
use tarkka.Acquisition.Names.{is_alpha}
use tarkka.Robots.Canonical.{utf8_size, is_surrogate, canonicalize_rule_pattern}
use tarkka.Robots.Rules.{RobotsGroup, RobotsRules, is_product_token}
use tarkka.Robots.Rules.Parsing.{
  ParseState, initial_state, no_agents, finish_group, add_agent, add_pattern, add_rule, parse_field,
  parse_line, parse_lines, parse, max_robots_bytes, splitlines, before, after,
}

-- `*`, or a product token.
abbrev pub IsAgent : Text → Type 0
IsAgent agent = (agent == codes "*" || is_product_token agent) ≡ true

-- A group is for at least one agent, and for agents only.
abbrev pub IsNamed : RobotsGroup → Type 0
IsNamed group = (no_agents group.agents ≡ false) × All IsAgent group.agents

record IsNaming (st : ParseState) : Type 0 where
  named : All IsNamed st.groups
  agents : All IsAgent st.agents

lower_character :
    (c : ℕ)
    → (is_alpha c || nat_beq c b'_' || nat_beq c b'-') ≡ true
    → (is_alpha (ascii_lower c) || nat_beq (ascii_lower c) b'_' || nat_beq (ascii_lower c) b'-')
      ≡ true
unfolding is_alpha ascii_lower
lower_character c h = ground arith

lower_all :
    (s : Text)
    → all (λ c. is_alpha c || nat_beq c b'_' || nat_beq c b'-') s ≡ true
    → all (λ c. is_alpha c || nat_beq c b'_' || nat_beq c b'-') (map ascii_lower s) ≡ true
lower_all [] h = refl
lower_all (c ∷ cs) h = ground (arith, lower_character c, lower_all cs)

lower_token : (s : Text) → is_product_token s ≡ true → is_product_token (map ascii_lower s) ≡ true
unfolding is_product_token
lower_token [] h = h
lower_token (c ∷ cs) h = lower_all (c ∷ cs) h

lower-IsAgent : (s : Text) → IsAgent s → IsAgent (map ascii_lower s)
unfolding ascii_lower list_beq
lower-IsAgent s h = elim (Bool-cases (s == codes "*")) [
  | inl star ↦ let e = (list_beq_iff s (codes "*")).0 star in rw e refl
  | inr other ↦ let t = lower_token s (ground arith) in ground arith
]

finish_group-IsNaming : (st : ParseState) → IsNaming st → IsNaming (finish_group st)
unfolding finish_group
finish_group-IsNaming st n = elim (Bool-cases (no_agents st.agents)) [
  | inl empty ↦ record { named = rw empty n.named; agents = tt }
  | inr some_agents ↦ record {
    named = rw some_agents (All-append IsNamed st.groups _ n.named ((some_agents, n.agents), tt));
    agents = tt;
  }
]

add_agent-IsNaming : (st : ParseState) (value : Text) → IsNaming st → IsNaming (add_agent st value)
unfolding add_agent
add_agent-IsNaming st value n = elim (Bool-cases (value == codes "*" || is_product_token value)) [
  | inr ignored ↦ rw ignored n
  | inl valid ↦
      let lower = lower-IsAgent value valid in
      elim (Bool-cases st.rules_started) [
        | inl started ↦
            let f = finish_group-IsNaming st n in
            rw (valid, started)
              (record {
                named = f.named;
                agents =
                    All-append IsAgent (finish_group st).agents (map ascii_lower value ∷ [])
                      f.agents (lower, tt);
              })
        | inr before_rules ↦
            rw (valid, before_rules)
              (record {
                named = n.named;
                agents =
                    All-append IsAgent st.agents (map ascii_lower value ∷ []) n.agents (lower, tt);
              })
      ]
]

-- A step that adds rules or a delay keeps the groups and the agents.
IsNaming-of_same :
    (st st' : ParseState)
    → st'.groups ≡ st.groups
    → st'.agents ≡ st.agents
    → IsNaming st
    → IsNaming st'
IsNaming-of_same st st' g a n = record { named = rw g n.named; agents = rw a n.agents }

add_pattern-IsNaming :
    (st : ParseState) (allow : Bool) (pattern : Result Text)
    → IsNaming st
    → IsNaming (add_pattern st allow pattern)
add_pattern-IsNaming st allow (ok pattern) n = IsNaming-of_same st _ refl refl n
add_pattern-IsNaming st allow (err e) n = n

add_rule-IsNaming :
    (st : ParseState) (allow : Bool) (value : Text)
    → IsNaming st
    → IsNaming (add_rule st allow value)
unfolding add_rule
add_rule-IsNaming st allow value n =
    let begun = IsNaming-of_same st (record st { rules_started = true }) refl refl n in
    elim (Bool-cases (is_empty value)) [
      | inl empty ↦ rw empty begun
      | inr pattern ↦ rw pattern (
          add_pattern-IsNaming (record st { rules_started = true }) allow
            (canonicalize_rule_pattern value) begun)
    ]

parse_field-IsNaming :
    (py : Library) (st : ParseState) (key value : Text)
    → IsNaming st
    → IsNaming (parse_field py st key value)
unfolding parse_field
parse_field-IsNaming py st key value n = elim (Bool-cases (key == codes "user-agent")) [
  | inl agent ↦ rw agent (add_agent-IsNaming st value n)
  | inr other ↦ elim (Bool-cases (no_agents st.agents)) [
    | inl none_yet ↦ rw (other, none_yet) n
    | inr named ↦ elim (Bool-cases (key == codes "allow" || key == codes "disallow")) [
      | inl rule ↦ rw (other, named, rule) (add_rule-IsNaming st (key == codes "allow") value n)
      | inr no_rule ↦ elim (Bool-cases (key == codes "crawl-delay")) [
        | inl delay ↦ rw (other, named, no_rule, delay) (IsNaming-of_same st _ refl refl n)
        | inr unknown ↦ rw (other, named, no_rule, unknown) n
      ]
    ]
  ]
]

parse_line-IsNaming :
    (py : Library) (st : ParseState) (raw_line : Text)
    → IsNaming st
    → IsNaming (parse_line py st raw_line)
unfolding parse_line
parse_line-IsNaming py st raw_line n =
    let line = strip (before b'#' raw_line) in
    elim (Bool-cases (contains b':' line)) [
      | inl field ↦ rw field (
          parse_field-IsNaming py st (map ascii_lower (strip (before b':' line)))
            (strip (after b':' line)) n)
      | inr ignored ↦ rw ignored n
    ]

parse_lines-IsNaming :
    (py : Library) (st : ParseState) (lines : List Text)
    → IsNaming st
    → IsNaming (parse_lines py st lines)
unfolding parse_lines
parse_lines-IsNaming py st [] n = n
parse_lines-IsNaming py st (line ∷ lines) n =
    parse_lines-IsNaming py (parse_line py st line) lines (parse_line-IsNaming py st line n)

-- Every group of a robots file that is parsed is for at least one agent, and each of its agents is
-- `*` or a product token.
pub parse-IsNamed :
    (py : Library) (content : Text) {robots : RobotsRules}
    → parse py content ≡ ok robots
    → All IsNamed robots.groups
unfolding parse
parse-IsNamed py content {robots} h =
    let st = parse_lines py initial_state (splitlines content) in
    on_require (all (λ c. not (is_surrogate c)) content) _ _ h λ t h1.
      on_require (leb (sum utf8_size content) max_robots_bytes) _ _ h1 λ t' h2.
        let n = finish_group-IsNaming st (
          parse_lines-IsNaming py initial_state (splitlines content)
            (record { named = tt; agents = tt })) in
        let e : robots ≡ record { groups = (finish_group st).groups } = cc in rw e n.named
