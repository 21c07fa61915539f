-- ===== src/Privacy/Mapping/Transform.antt =====
-- src/mr_hide/privacy/mapping.py: `transform_text`. The default arguments are the caller's: an empty
-- table for no table, `character_scorer` for no scorer.
use mr_hide.Prelude.{
  length, take, drop, any, slice, Text, ℕ, ◌+◌, ◌-◌, not, none, some, List, [], ◌∷◌, ◌++◌, map,
  contains,
}
use mr_hide.Errors.{
  ambiguous_existing_substitute, empty_normalized_entity, mapping_mode_mismatch, privacy, Result,
  ok, ◌>>=◌, ◌>>◌, raise_if,
}
use mr_hide.Policy.{SubstitutionMode, same_mode}
use mr_hide.Privacy.Unicode.{Unicode}
use mr_hide.Privacy.Models.{DetectedSpan, is_empty}
use mr_hide.Privacy.Normalization.{normalize_entity}
use mr_hide.Privacy.Scoring.{TokenScorer, safe_cost, safe_metric}
use mr_hide.Privacy.Overlap.{default_priority, resolve_overlaps}
use mr_hide.Privacy.Mapping.{MappingRecord, MappingTable, mapping_table, find}
use mr_hide.Privacy.Mapping.Substitutes.{next_substitute}

pub record TransformationResult : Type 0 where
  pub text : Text
  pub mappings : MappingTable
  pub replacements : ℕ
  pub cost_metric : Text
  pub original_cost : ℕ
  pub substitute_cost : ℕ

-- the property `claimed_savings`; subtraction on ℕ stops at 0, as `max(0, …)` does
abbrev pub claimed_savings : TransformationResult → ℕ
claimed_savings r = r.original_cost - r.substitute_cost

abbrev pub Replacement : Type 0
Replacement = DetectedSpan × MappingRecord

-- the variables of the loop over the spans
pub record Progress : Type 0 where
  pub working : MappingTable
  pub forbidden : List Text
  pub replacements : List Replacement

abbrev pub span_text : Text → DetectedSpan → Text
span_text t span = slice span.start span.end t

module _ (u : Unicode) (ipv6 : ℕ → Text) (scorer : TokenScorer) (mode : SubstitutionMode)
    (t : Text) where
  abbrev pub record_for : DetectedSpan → Text → Text → MappingRecord
  record_for span normalized substitute = record {
    entity_type = span.entity_type;
    normalized = normalized;
    original = span_text t span;
    substitute = substitute;
    mode = mode;
  }

  -- the loop's variables with a new record, in a table that is checked again
  unfoldable pub add_record : Progress → DetectedSpan → Text → Text → Result Progress
  add_record p span normalized substitute = do
    table ← mapping_table u (p.working.records ++ record_for span normalized substitute ∷ [])
    ok (record {
      working = table;
      forbidden = substitute ∷ span_text t span ∷ p.forbidden;
      replacements = p.replacements ++ (span, record_for span normalized substitute) ∷ [];
    })

  -- `record is None`
  unfoldable pub new_record : Progress → DetectedSpan → Text → Result Progress
  new_record p span normalized = do
    substitute ← next_substitute ipv6 p.working span.entity_type mode p.forbidden scorer
    add_record p span normalized substitute

  unfoldable pub known_record : Progress → DetectedSpan → MappingRecord → Result Progress
  known_record p span item = do
    raise_if (not (same_mode item.mode mode)) (privacy mapping_mode_mismatch)
    ok (record p { replacements = p.replacements ++ (span, item) ∷ [] })

  -- the body of the loop
  unfoldable pub replace_span : Progress → DetectedSpan → Result Progress
  replace_span p span = do
    let normalized = normalize_entity u (span_text t span) span.entity_type
    raise_if (is_empty normalized) (privacy empty_normalized_entity)
    elim (find p.working span.entity_type normalized) [
      | none ↦ new_record p span normalized
      | some item ↦ known_record p span item
    ]

  unfoldable pub replace_spans : Progress → List DetectedSpan → Result Progress
  replace_spans p [] = ok p
  replace_spans p (span ∷ spans) = do p' ← replace_span p span; replace_spans p' spans

-- `transformed[: span.start] + record.substitute + transformed[span.end :]`
unfoldable pub splice : Replacement → Text → Text
splice (span, item) transformed =
    take span.start transformed ++ (item.substitute ++ drop span.end transformed)

-- the loop over `reversed(replacements)`: the last replacement is made first
unfoldable pub splice_all : List Replacement → Text → Text
unfolding splice
splice_all [] transformed = transformed
splice_all (r ∷ replacements) transformed = splice r (splice_all replacements transformed)

unfoldable pub total_cost : TokenScorer → List Text → Result ℕ
total_cost scorer [] = ok 0
total_cost scorer (x ∷ xs) = do
  cost ← safe_cost scorer x
  rest ← total_cost scorer xs
  ok (cost + rest)

-- `forbidden` before the loop
abbrev pub initially_forbidden : Text → MappingTable → List Text
initially_forbidden t table =
    t ∷ map (λ r. r.original) table.records ++ map (λ r. r.substitute) table.records

-- the costs and the metric, with the text spliced together
unfoldable pub finish :
    TokenScorer → Text → List DetectedSpan → Progress → Result TransformationResult
finish scorer t spans p = do
  metric ← safe_metric scorer
  original_cost ← total_cost scorer (map (span_text t) spans)
  substitute_cost ← total_cost scorer (map (λ r. r.1.substitute) p.replacements)
  ok (record {
    text = splice_all p.replacements t;
    mappings = p.working;
    replacements = length p.replacements;
    cost_metric = metric;
    original_cost = original_cost;
    substitute_cost = substitute_cost;
  })

unfoldable pub transform_text :
    Unicode
    → (ℕ → Text)
    → TokenScorer
    → SubstitutionMode
    → MappingTable
    → Text
    → List DetectedSpan
    → Result TransformationResult
transform_text u ipv6 scorer mode working t detections = do
  raise_if (any (λ r. contains r.substitute t) working.records)
      (privacy ambiguous_existing_substitute)
  spans ← resolve_overlaps default_priority t detections
  p ←
      replace_spans u ipv6 scorer mode t
        (record { working = working; forbidden = initially_forbidden t working; replacements = [] })
        spans
  finish scorer t spans p
