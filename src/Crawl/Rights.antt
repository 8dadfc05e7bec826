-- ===== src/Crawl/Rights.antt =====
-- RightsAccessDecision of domain/rights_access.py.
use tarkka.Prelude.{
  Bool, true, false, not, ◌||◌, Option, none, some, Result, ok, ◌>>=◌, ◌>>◌, require, Text,
  is_blank, strip,
}
use tarkka.Traversal.Target.{UriNormalizer, is_some}

pub data ResourceUse : Type 0 where
  retrieve store analyze redistribute : ResourceUse

pub data OperatorOverride : Type 0 where
  no_override restrict allow_override : OperatorOverride

pub record RightsAccessDecision : Type 0 where
  pub target_uri : Text
  pub retrieval_allowed : Bool
  pub storage_allowed : Bool
  pub analysis_allowed : Bool
  pub redistribution_allowed : Bool
  pub source_name : Text
  pub policy_reference : Option Text
  pub requires_authentication : Bool
  pub paywalled : Bool
  pub operator_override : OperatorOverride
  pub rationale : Option Text

abbrev pub not_blank : Option Text → Bool
not_blank none = true
not_blank (some value) = not (is_blank value)

abbrev pub stripped : Option Text → Option Text
stripped none = none
stripped (some value) = some (strip value)

abbrev pub is_none_override : OperatorOverride → Bool
is_none_override no_override = true
is_none_override _ = false

-- RightsAccessDecision.__post_init__
unfoldable pub post_init : UriNormalizer → RightsAccessDecision → Result RightsAccessDecision
unfolding is_blank strip
post_init uris d = do
  uri ← uris.normalize d.target_uri
  require (not (is_blank d.source_name)) "rights source_name must be non-blank"
  require (not_blank d.policy_reference) "rights policy_reference must be non-blank when provided"
  require (not_blank d.rationale) "rights rationale must be non-blank when provided"
  require (is_none_override d.operator_override || is_some d.rationale)
      "operator rights overrides require an auditable rationale"
  ok (record d {
    target_uri = uri;
    source_name = strip d.source_name;
    policy_reference = stripped d.policy_reference;
    rationale = stripped d.rationale;
  })

-- RightsAccessDecision.allows
unfoldable pub allows : RightsAccessDecision → ResourceUse → Bool
allows d retrieve = d.retrieval_allowed
allows d store = d.storage_allowed
allows d analyze = d.analysis_allowed
allows d redistribute = d.redistribution_allowed
