-- ===== src/Robots/Rules/Parsing.antt =====
-- `RobotsRules.parse` of domain/robots_rules.py.
pub mod Groups
use tarkka.Prelude.{
  ℕ, Bool, true, false, not, ◌&&◌, ◌||◌, Option, none, some, List, [], ◌∷◌, ◌++◌, map, leb, ltb,
  nat_beq, if◌then◌else◌, length, all, sum, Result, ok, err, ◌>>◌, require, ◌==◌, nat_eq, list_eq,
  contains, Text, codes, strip, is_empty, ascii_lower, Float, finite, add_to_first,
}
use tarkka.Acquisition.Library.{Library}
use tarkka.Robots.Canonical.{utf8_size, is_surrogate, canonicalize_rule_pattern}
use tarkka.Robots.Rules.{RobotsRule, RobotsGroup, RobotsRules, is_product_token, strictest}

-- _MAX_ROBOTS_BYTES
abbrev pub max_robots_bytes : ℕ
max_robots_bytes = 524288

-- The characters at which str.splitlines ends a line.
unfoldable pub is_line_end : ℕ → Bool
is_line_end c =
    (leb 10 c && leb c 13)
    || (leb 28 c && leb c 30)
    || nat_beq c 133
    || nat_beq c 8232
    || nat_beq c 8233

-- str.splitlines; a carriage return before a line feed ends no line of its own
unfoldable pub splitlines : Text → List Text
unfolding is_line_end
splitlines [] = []
splitlines (c ∷ []) = if is_line_end c then [] ∷ [] else (c ∷ []) ∷ []
splitlines (c ∷ d ∷ cs) =
    let rest = splitlines (d ∷ cs) in
    if nat_beq c 13 && nat_beq d 10
    then rest
    else if is_line_end c
    then [] ∷ rest
    else add_to_first c rest

-- s.split(sep, 1)[0], and s.split(sep, 1)[1] where the separator is there
unfoldable pub before : ℕ → Text → Text
before sep [] = []
before sep (c ∷ cs) = let rest = before sep cs in if nat_beq c sep then [] else c ∷ rest

unfoldable pub after : ℕ → Text → Text
after sep [] = []
after sep (c ∷ cs) = let rest = after sep cs in if nat_beq c sep then cs else rest

-- A value of `float(value)` that _parse_crawl_delay keeps.
abbrev pub accepted_delay : Option Float → Option ℕ
accepted_delay none = none
accepted_delay (some (finite delay)) = some delay
accepted_delay (some _) = none

-- _parse_crawl_delay
unfoldable pub parse_crawl_delay : Library → Text → Option ℕ
parse_crawl_delay py value =
    if ltb 64 (length value) then none else accepted_delay (py.parse_float value)

-- The variables of the loop of `parse`; of `crawl_delays` only the maximum is read.
pub record ParseState : Type 0 where
  pub groups : List RobotsGroup
  pub agents : List Text
  pub rules : List RobotsRule
  pub crawl_delay : Option ℕ
  pub rules_started : Bool

abbrev pub initial_state : ParseState
initial_state = record {
  groups = [];
  agents = [];
  rules = [];
  crawl_delay = none;
  rules_started = false;
}

abbrev pub no_agents : List Text → Bool
no_agents [] = true
no_agents (agent ∷ agents) = false

-- finish_group
unfoldable pub finish_group : ParseState → ParseState
finish_group st = record {
  groups =
      if no_agents st.agents
      then st.groups
      else st.groups
        ++ record { agents = st.agents; rules = st.rules; crawl_delay_seconds = st.crawl_delay }
          ∷ [];
  agents = [];
  rules = [];
  crawl_delay = none;
  rules_started = false;
}

unfoldable pub add_agent : ParseState → Text → ParseState
unfolding finish_group ascii_lower is_product_token
add_agent st value =
    if value == codes "*" || is_product_token value
    then (let open_state = if st.rules_started then finish_group st else st in
        record open_state { agents = open_state.agents ++ map ascii_lower value ∷ [] })
    else st

-- A pattern that is not valid adds no rule.
abbrev pub add_pattern : ParseState → Bool → Result Text → ParseState
add_pattern st allow (ok pattern) = record st {
  rules = st.rules ++ record { allow = allow; pattern = pattern } ∷ [];
}
add_pattern st allow (err e) = st

unfoldable pub add_rule : ParseState → Bool → Text → ParseState
unfolding canonicalize_rule_pattern
add_rule st allow value =
    let started = record st { rules_started = true } in
    if is_empty value then started else add_pattern started allow (canonicalize_rule_pattern value)

-- One field of the file, its key in lower case. `str.lower` differs from the ASCII lower case on
-- no text that one of the keys below is the lower case of.
unfoldable pub parse_field : Library → ParseState → Text → Text → ParseState
unfolding add_agent add_rule parse_crawl_delay
parse_field py st key value =
    if key == codes "user-agent"
    then add_agent st value
    else if no_agents st.agents
    then st
    else if key == codes "allow" || key == codes "disallow"
    then add_rule st (key == codes "allow") value
    else if key == codes "crawl-delay"
    then record st { crawl_delay = strictest st.crawl_delay (parse_crawl_delay py value) }
    else st

unfoldable pub parse_line : Library → ParseState → Text → ParseState
unfolding before after strip ascii_lower parse_field
parse_line py st raw_line =
    let line = strip (before b'#' raw_line) in
    if contains b':' line
    then parse_field py st (map ascii_lower (strip (before b':' line))) (strip (after b':' line))
    else st

unfoldable pub parse_lines : Library → ParseState → List Text → ParseState
unfolding parse_line
parse_lines py st [] = st
parse_lines py st (line ∷ lines) = parse_lines py (parse_line py st line) lines

-- RobotsRules.parse
unfoldable pub parse : Library → Text → Result RobotsRules
unfolding is_surrogate utf8_size splitlines parse_lines finish_group
parse py content = do
  require (all (λ c. not (is_surrogate c)) content) "robots content must be valid UTF-8 text"
  require (leb (sum utf8_size content) max_robots_bytes)
      "robots content exceeds the 512 KiB parsing limit"
  ok (record { groups = (finish_group (parse_lines py initial_state (splitlines content))).groups })
