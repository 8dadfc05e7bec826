-- ===== src/Tests/Documents.antt =====
-- A document with one reference, resolved to a work that its own work then cites.
use tarkka.Prelude.{
  ◌≡◌, refl, some, none, [], ◌∷◌, nat_eq, list_beq, ok, err, value_error, pos, negsuc, ascii_lower,
  ltb,
}
use tarkka.Citations.{WorkRelation, cites, native}
use tarkka.Citations.Catalog.{Catalog}
use tarkka.Citations.Documents.{Links, Clock, CitationResolutionResult, resolve_document}
use tarkka.Citations.Documents.Accounted.{IsAccounted, resolve_document-IsAccounted}
use tarkka.Citations.Documents.Pages.{AreKeyed}
use tarkka.Tests.Resolution.{unicode, works, reference, resolution}

abbrev links : Links
links = record {
  has_work = λ id. ltb 7 id;
  linked_works = some (λ document_id. 8 ∷ []);
  relation_id = λ citing reference cited. 100;
}

abbrev clock : Clock
clock = record { resolved_at = λ turn. 50; created_at = λ turn. 51 }

abbrev catalog : Catalog
catalog = record { references = (3, reference) ∷ []; resolutions = []; relations = [] }

abbrev relation : WorkRelation
relation = record {
  relation_id = 100;
  subject_work_id = 8;
  object_work_id = 9;
  kind = cites;
  basis = native;
  source_observation_id = none;
  source_document_id = some 1;
  source_reference_id = some 3;
  created_at = 51;
}

abbrev result : CitationResolutionResult
result = record {
  resolutions = resolution ∷ [];
  relations = relation ∷ [];
  citing_work_id = some 8;
  total_references = 1;
}

abbrev last : Catalog
last = record catalog { resolutions = (3, resolution) ∷ []; relations = (100, relation) ∷ [] }

document_resolved :
    resolve_document unicode works links clock 1 none (pos 0) (some (pos 5)) catalog
    ≡ (ok result, last)
unfolding resolve_document ascii_lower list_beq
document_resolved = refl

document_unlinked :
    resolve_document unicode works links clock 1 (some 9) (pos 0) none catalog
    ≡ (err (value_error "explicit citing work is not linked to the source document"), catalog)
unfolding resolve_document
document_unlinked = refl

document_negative :
    resolve_document unicode works links clock 1 none (pos 0) (some (negsuc 0)) catalog
    ≡ (err (value_error "citation resolution offset and limit must be non-negative"), catalog)
unfolding resolve_document
document_negative = refl

catalog-AreKeyed : AreKeyed catalog.references
catalog-AreKeyed = record { named = (refl, tt); distinct = (refl, tt) }

resolve_document-IsAccounted_example :
    IsAccounted unicode works links clock 1 none (pos 0) (some (pos 5)) result catalog last
resolve_document-IsAccounted_example =
    resolve_document-IsAccounted unicode works links clock 1 none (pos 0) (some (pos 5)) result
      catalog last catalog-AreKeyed document_resolved
