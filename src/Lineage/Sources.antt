-- ===== src/Lineage/Sources.antt =====
-- _resolve_evidence_source: what the source of an evidence record is, and the round trip from
-- Evidence.from_passage.
use tarkka.Prelude.{
  ℕ, ◌≤◌, ◌-◌, ◌≡◌, refl, sym, subst, true, false, Option, none, some, List, leb, leb→le, nat_beq,
  nat_beq_iff, nat_eq, list_eq, list_beq_iff, ◌==◌, length, find, find-All, In, All-In, ok,
  on_require, is_blank, Text, length-drop, length-take, drop, lt→ltb, ◌<◌, arith,
}
use tarkka.Lineage.Model.{
  Passage, Section, Figure, Table, Equation, Document, Evidence, EvidenceRecord, passage_evidence,
  figure_evidence, table_evidence, equation_evidence, EvidenceSource, passage_source, figure_source,
  table_source, equation_source, slice, of_span, post_init, from_passage,
}
use tarkka.Lineage.{resolve_evidence_source, within}
use tarkka.Lineage.Chains.{ok_injective, on_found}

-- The source is in the document, has the identifier that the evidence names, and contains it.
abbrev pub IsLocated : Document → EvidenceRecord → EvidenceSource → Type 0
IsLocated document (passage_evidence e) (passage_source p) =
    (s : Section) × In s document.sections
    × (s.section_id ≡ e.section_id)
    × In p s.passages
    × (p.passage_id ≡ e.passage_id)
    × (e.passage_char_end ≤ length p.text)
    × (slice e.passage_char_start e.passage_char_end p.text ≡ e.text)
IsLocated document (figure_evidence e) (figure_source f) =
    In f document.figures × (f.figure_id ≡ e.figure_id)
IsLocated document (table_evidence e) (table_source t) =
    In t document.tables
    × (t.table_id ≡ e.table_id)
    × ((rows : ℕ) → t.row_count ≡ some rows → e.row_end ≤ rows)
    × ((columns : ℕ) → t.column_count ≡ some columns → e.column_end ≤ columns)
IsLocated document (equation_evidence e) (equation_source q) =
    In q document.equations × (q.equation_id ≡ e.equation_id)
IsLocated _ _ _ = ⊥

le→leb : (a b : ℕ) → a ≤ b → leb a b ≡ true
le→leb a b h = ground arith

find-In :
    {A : Type 0} (id_of : A → ℕ) (id : ℕ) (items : List A) (x : A)
    → find (λ (y : A). nat_beq (id_of y) id) items ≡ some x
    → In x items × (id_of x ≡ id)
find-In id_of id items x e =
    let (there, same) =
      find-All (λ y. In y items) (λ y. nat_beq (id_of y) id) items x e (All-In items) in
    (there, (nat_beq_iff (id_of x) id).0 same)

within-le :
    (end : ℕ) (count : Option ℕ) → within end count ≡ true → (n : ℕ) → count ≡ some n → end ≤ n
within-le end none h n e = absurd (ground arith)
within-le end (some m) h n e = ground arith

pub resolve-IsLocated :
    (document : Document) (evidence : EvidenceRecord) (source : EvidenceSource)
    → resolve_evidence_source document evidence ≡ ok source
    → IsLocated document evidence source
unfolding resolve_evidence_source
resolve-IsLocated document (passage_evidence e) source h =
    on_found (find (λ (s : Section). nat_beq s.section_id e.section_id) document.sections) _ _ h
      λ section in_document h.
        on_found (find (λ (p : Passage). nat_beq p.passage_id e.passage_id) section.passages) _ _ h
          λ passage in_section h.
            on_require (leb e.passage_char_end (length passage.text)) _ _ h λ fits h.
              on_require (slice e.passage_char_start e.passage_char_end passage.text == e.text) _ _
                h
                λ exact h.
                  let (section_in, section_named) =
                    find-In (λ (s : Section). s.section_id) e.section_id document.sections section
                      in_document in
                  let (passage_in, passage_named) =
                    find-In (λ (p : Passage). p.passage_id) e.passage_id section.passages passage
                      in_section in
                  subst (IsLocated document (passage_evidence e)) (ok_injective h) (
                    section,
                    section_in,
                    section_named,
                    passage_in,
                    passage_named,
                    leb→le e.passage_char_end (length passage.text) fits,
                    (list_beq_iff (slice e.passage_char_start e.passage_char_end passage.text)
                          e.text).0
                        exact,
                  )
resolve-IsLocated document (figure_evidence e) source h =
    on_found (find (λ (f : Figure). nat_beq f.figure_id e.figure_id) document.figures) _ _ h
      λ figure there h.
        subst (IsLocated document (figure_evidence e)) (ok_injective h)
          (find-In (λ (f : Figure). f.figure_id) e.figure_id document.figures figure there)
resolve-IsLocated document (table_evidence e) source h =
    on_found (find (λ (t : Table). nat_beq t.table_id e.table_id) document.tables) _ _ h
      λ table there h. on_require (within e.row_end table.row_count) _ _ h λ rows h.
        on_require (within e.column_end table.column_count) _ _ h λ columns h.
          let (table_in, named) =
            find-In (λ (t : Table). t.table_id) e.table_id document.tables table there in
          subst (IsLocated document (table_evidence e)) (ok_injective h) (
            table_in,
            named,
            within-le e.row_end table.row_count rows,
            within-le e.column_end table.column_count columns,
          )
resolve-IsLocated document (equation_evidence e) source h =
    on_found (find (λ (q : Equation). nat_beq q.equation_id e.equation_id) document.equations) _ _ h
      λ equation there h.
        subst (IsLocated document (equation_evidence e)) (ok_injective h) (
          find-In (λ (q : Equation). q.equation_id) e.equation_id document.equations equation there)

-- A span within a passage has the length of its text.
length-slice :
    (start end : ℕ) (s : Text)
    → start < end
    → end ≤ length s
    → length (slice start end s) ≡ end - start
length-slice start end s h fits =
    let dropped = length-drop start s (omega arith) in
    length-take (end - start) (drop start s) (omega arith)

-- A span of a passage that is in it, not empty and not blank makes evidence, and this is resolved
-- back to the passage in any document where the identifiers of its section and of itself find it.
pub from_passage-resolve :
    (document : Document) (section : Section) (passage : Passage) (evidence_id start end run_id : ℕ)
    → find (λ (s : Section). nat_beq s.section_id passage.section_id) document.sections
      ≡ some section
    → find (λ (p : Passage). nat_beq p.passage_id passage.passage_id) section.passages
      ≡ some passage
    → start < end
    → end ≤ length passage.text
    → is_blank (slice start end passage.text) ≡ false
    → (e : Evidence) × (from_passage evidence_id passage start end run_id ≡ ok e)
      × (e.text ≡ slice start end passage.text)
      × (resolve_evidence_source document (passage_evidence e) ≡ ok (passage_source passage))
unfolding from_passage post_init resolve_evidence_source
from_passage-resolve document section passage evidence_id start end run_id in_document in_section
      some_text fits visible =
    let text = slice start end passage.text in
    let exact =
      (nat_beq_iff (end - start) (length text)).1
        (sym (length-slice start end passage.text some_text fits)) in
    (
      of_span evidence_id passage start end run_id,
      rw (le→leb end (length passage.text) fits, lt→ltb start end some_text, exact, visible) refl,
      refl,
      rw
          (
            in_document,
            in_section,
            le→leb end (length passage.text) fits,
            (list_beq_iff text text).1 refl,
          )
          refl,
    )
