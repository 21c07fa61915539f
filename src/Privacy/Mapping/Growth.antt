-- ===== src/Privacy/Mapping/Growth.antt =====
-- How `transform_text` of src/mr_hide/privacy/mapping.py changes the mapping table.
use mr_hide.Prelude.{
  Option-cases, All, Text, ℕ, ◌≡◌, refl, sym, ap, subst, ◌∙◌, inl, inr, List, [], ◌∷◌, ◌++◌,
  append_assoc, append-nil, arith,
}
use mr_hide.Errors.{ok, >>=-eq-ok, ok-injective}
use mr_hide.Policy.{SubstitutionMode}
use mr_hide.Privacy.Unicode.{Unicode}
use mr_hide.Privacy.Models.{DetectedSpan}
use mr_hide.Privacy.Scoring.{TokenScorer}
use mr_hide.Privacy.Mapping.{MappingRecord, MappingTable, mapping_table, find}
use mr_hide.Privacy.Mapping.Transform.{
  TransformationResult, Progress, span_text, record_for, add_record, new_record, known_record,
  replace_span, replace_spans, transform_text,
}
use mr_hide.Privacy.Mapping.Valid.{mapping_table_lem}
use mr_hide.Privacy.Mapping.Substitutes.{next_substitute}
use mr_hide.Privacy.Normalization.{normalize_entity}
use mr_hide.Privacy.Mapping.Roundtrip.{start, transform_text-Steps}

-- The records stay, in their order, before new ones of the mode.
abbrev pub Grows : SubstitutionMode → MappingTable → MappingTable → Type 0
Grows mode table table' =
    (new : List MappingRecord) × (table'.records ≡ table.records ++ new)
    × All (λ r. r.mode ≡ mode) new

pub Grows-refl : (mode : SubstitutionMode) (table : MappingTable) → Grows mode table table
Grows-refl mode table = ([], sym (append-nil table.records), tt)

All-append : {A : Type 0} (P : A → Type 0) (xs ys : List A) → All P xs → All P ys → All P (xs ++ ys)
All-append P [] ys h k = k
All-append P (x ∷ xs) ys h k = (h.0, All-append P xs ys h.1 k)

pub Grows-trans :
    (mode : SubstitutionMode) (a b c : MappingTable)
    → Grows mode a b
    → Grows mode b c
    → Grows mode a c
Grows-trans mode a b c (xs, p, h) (ys, q, k) = (
  xs ++ ys,
  q ∙ ap (λ z. z ++ ys) p ∙ append_assoc a.records xs ys,
  All-append (λ r. r.mode ≡ mode) xs ys h k,
)

module _ (u : Unicode) (ipv6 : ℕ → Text) (scorer : TokenScorer) (mode : SubstitutionMode)
    (t : Text) where
  add_record-Grows :
      (p p' : Progress) (span : DetectedSpan) (normalized substitute : Text)
      → add_record u ipv6 scorer mode t p span normalized substitute ≡ ok p'
      → Grows mode p.working p'.working
  unfolding add_record
  add_record-Grows p p' span normalized substitute h =
      let item = record_for u ipv6 scorer mode t span normalized substitute in
      let (table, e, q) = >>=-eq-ok (mapping_table u (p.working.records ++ item ∷ [])) _ h in
      (
        item ∷ [],
        ap (λ x. x.working.records) (sym (ok-injective q))
            ∙ ap (λ x. x.records) (mapping_table_lem u (p.working.records ++ item ∷ []) table e).0,
        (refl, tt),
      )

  replace_span-Grows :
      (p p' : Progress) (span : DetectedSpan)
      → replace_span u ipv6 scorer mode t p span ≡ ok p'
      → Grows mode p.working p'.working
  unfolding replace_span new_record known_record
  replace_span-Grows p p' span h =
      elim (Option-cases (
        find p.working span.entity_type (normalize_entity u (span_text t span) span.entity_type))) [
          | inl e ↦
              let (s, _, q) =
                >>=-eq-ok (next_substitute ipv6 p.working span.entity_type mode p.forbidden scorer)
                  (add_record u ipv6 scorer mode t p span
                    (normalize_entity u (span_text t span) span.entity_type))
                  (ground arith) in
              add_record-Grows p p' span (normalize_entity u (span_text t span) span.entity_type) s
                q
          | inr (r, e) ↦
              let same : p.working ≡ p'.working = ground arith in
              subst (Grows mode p.working) same (Grows-refl mode p.working)
        ]

  replace_spans-Grows :
      (p p' : Progress) (spans : List DetectedSpan)
      → replace_spans u ipv6 scorer mode t p spans ≡ ok p'
      → Grows mode p.working p'.working
  unfolding replace_spans
  replace_spans-Grows p p' [] h =
      subst (λ x. Grows mode p.working x.working) (ok-injective h) (Grows-refl mode p.working)
  replace_spans-Grows p p' (span ∷ spans) h =
      let (q, e, k) =
        >>=-eq-ok (replace_span u ipv6 scorer mode t p span)
          (λ x. replace_spans u ipv6 scorer mode t x spans) h in
      Grows-trans mode p.working q.working p'.working (replace_span-Grows p q span e)
        (replace_spans-Grows q p' spans k)

  -- A successful transformation keeps every record of the table where it is, and puts new records,
  -- all of the mode of the call, behind them: what was mapped stays mapped.
  pub transform_text-Grows :
      (working : MappingTable) (detections : List DetectedSpan) (result : TransformationResult)
      → transform_text u ipv6 scorer mode working t detections ≡ ok result
      → Grows mode working result.mappings
  transform_text-Grows working detections result h =
      let steps = transform_text-Steps u ipv6 scorer mode working t detections result h in
      subst (Grows mode working) (sym steps.mappings_eq) (
        replace_spans-Grows (start u ipv6 scorer mode working t detections) steps.last steps.spans
          steps.looped)
