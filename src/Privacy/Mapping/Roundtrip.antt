-- ===== src/Privacy/Mapping/Roundtrip.antt =====
-- `transform_text` and `restore_text` of src/mr_hide/privacy/mapping.py: what is protected can be
-- restored.
use mr_hide.Prelude.{any, All, Has, Text, ℕ, ◌≡◌, false, List, [], ◌∷◌, arith, text_eq, contains}
use mr_hide.Errors.{ambiguous_existing_substitute, privacy, ok, >>=-eq-ok, after_guard}
use mr_hide.Policy.{SubstitutionMode, alias}
use mr_hide.Privacy.Unicode.{Unicode}
use mr_hide.Privacy.Models.{DetectedSpan}
use mr_hide.Privacy.Normalization.{normalize_entity}
use mr_hide.Privacy.Scoring.{TokenScorer}
use mr_hide.Privacy.Mapping.{MappingRecord, MappingTable}
use mr_hide.Privacy.Mapping.Transform.{
  TransformationResult, Progress, replace_spans, splice_all, initially_forbidden, finish,
  transform_text,
}
use mr_hide.Privacy.Mapping.Splice.{Piece, source, protected, pieces}
use mr_hide.Privacy.Overlap.{default_priority, resolve_overlaps}
use mr_hide.Privacy.Mapping.Valid.{IsValid, IsConsistent}
use mr_hide.Privacy.Mapping.Scan.Shape.{IsAlias}
use mr_hide.Privacy.Overlap.Apart.{IsSpan}

none_contained :
    (t : Text) (records : List MappingRecord)
    → any (λ r. contains r.substitute t) records ≡ false
    → All (λ r. contains r.substitute t ≡ false) records
none_contained t [] h = tt
none_contained t (r ∷ records) h = (ground arith, none_contained t records (ground arith))

-- The original of the record and the text that it replaces have one normal form.
abbrev pub SameNormalForm : Unicode → Piece → Type 0
SameNormalForm u p =
    normalize_entity u p.item.original p.item.entity_type
    ≡ normalize_entity u p.found p.item.entity_type

module _ (u : Unicode) (ipv6 : ℕ → Text) (scorer : TokenScorer) (mode : SubstitutionMode)
    (working : MappingTable) (t : Text) (detections : List DetectedSpan) where
  abbrev pub start : Progress
  start = record { working = working; forbidden = initially_forbidden t working; replacements = [] }

  -- The steps of a successful transformation.
  pub record Steps (result : TransformationResult) : Type 0 where
    pub spans : List DetectedSpan
    pub last : Progress
    pub absent : All (λ r. contains r.substitute t ≡ false) working.records
    pub resolved : resolve_overlaps default_priority t detections ≡ ok spans
    pub looped : replace_spans u ipv6 scorer mode t start spans ≡ ok last
    pub text_eq : result.text ≡ splice_all last.replacements t
    pub mappings_eq : result.mappings ≡ last.working

  finish-parts :
      (spans : List DetectedSpan) (p : Progress) (result : TransformationResult)
      → finish scorer t spans p ≡ ok result
      → (result.text ≡ splice_all p.replacements t) × (result.mappings ≡ p.working)
  unfolding finish
  finish-parts spans p result h = (ground arith, ground arith)

  pub transform_text-Steps :
      (result : TransformationResult)
      → transform_text u ipv6 scorer mode working t detections ≡ ok result
      → Steps result
  unfolding transform_text
  transform_text-Steps result h =
      let (absent, h₁) =
        after_guard (any (λ r. contains r.substitute t) working.records)
          (privacy ambiguous_existing_substitute) _ h in
      let (spans, resolved, h₂) = >>=-eq-ok (resolve_overlaps default_priority t detections) _ h₁ in
      let (last, looped, h₃) =
        >>=-eq-ok (replace_spans u ipv6 scorer mode t start spans) (finish scorer t spans) h₂ in
      let (text_eq, mappings_eq) = finish-parts spans last result h₃ in
      record {
        spans = spans;
        last = last;
        absent = none_contained t working.records absent;
        resolved = resolved;
        looped = looped;
        text_eq = text_eq;
        mappings_eq = mappings_eq;
      }

  -- What is known of the table to begin with.
  record IsReady : Type 0 where
    pub valid : IsValid u working.records
    pub aliased : mode ≡ alias → All (λ r. IsAlias r.substitute) working.records
    pub spans : All IsSpan detections

  -- The text taken to pieces, with what the records say of the pieces.
  record Taken (after : Text) (mappings : MappingTable) : Type 0 where
    pub pieces : List Piece
    pub rest : Text
    pub whole : source pieces rest ≡ t
    pub text_eq : after ≡ protected pieces rest
    pub used : All (λ p. Has p.item mappings.records) pieces
    pub same : All (SameNormalForm u) pieces
    pub valid : IsConsistent mappings.records
    pub absent : All (λ r. contains r.substitute t ≡ false) mappings.records
    pub aliased : mode ≡ alias → All (λ r. IsAlias r.substitute) mappings.records
