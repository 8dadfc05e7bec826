-- ===== src/Citations.antt =====
-- WorkRelation and its kinds, of domain/citations.py: typed links between works. A UUID is its
-- 128-bit number, and a time its place in the order.
pub mod Relations
pub mod Kinds
pub mod Resolution
pub mod Equality
pub mod Traversal
pub mod Catalog
pub mod Documents
use tarkka.Prelude.{
  ℕ, Bool, true, false, not, ◌||◌, Option, none, some, nat_beq, Result, ok, ◌>>=◌, ◌>>◌, require,
  Text, codes,
}
use tarkka.Traversal.Target.{is_some}

pub data WorkRelationKind : Type 0 where
  cites is_version_of is_preprint_of is_correction_of is_retraction_of : WorkRelationKind
  uses_dataset uses_software supplements has_part related : WorkRelationKind

-- WorkRelationKind.value
abbrev pub kind_value : WorkRelationKind → Text
kind_value cites = codes "cites"
kind_value is_version_of = codes "is_version_of"
kind_value is_preprint_of = codes "is_preprint_of"
kind_value is_correction_of = codes "is_correction_of"
kind_value is_retraction_of = codes "is_retraction_of"
kind_value uses_dataset = codes "uses_dataset"
kind_value uses_software = codes "uses_software"
kind_value supplements = codes "supplements"
kind_value has_part = codes "has_part"
kind_value related = codes "related"

abbrev pub is_cites : WorkRelationKind → Bool
is_cites cites = true
is_cites _ = false

pub data ObservationBasis : Type 0 where
  native reconstructed inferred : ObservationBasis

pub record WorkRelation : Type 0 where
  pub relation_id : ℕ
  pub subject_work_id : ℕ
  pub object_work_id : ℕ
  pub kind : WorkRelationKind
  pub basis : ObservationBasis
  pub source_observation_id : Option ℕ
  pub source_document_id : Option ℕ
  pub source_reference_id : Option ℕ
  pub created_at : ℕ

-- WorkRelation.__post_init__
unfoldable pub post_init : WorkRelation → Result WorkRelation
post_init r = do
  require (is_cites r.kind || not (nat_beq r.subject_work_id r.object_work_id))
      "non-citation work relation endpoints must be distinct"
  require
      (is_some r.source_observation_id
        || is_some r.source_document_id
        || is_some r.source_reference_id)
      "work relation must retain at least one provenance source"
  ok r
