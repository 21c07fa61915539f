-- ===== src/Privacy/Mapping/Progress.antt =====
-- What the loop of `transform_text` of src/mr_hide/privacy/mapping.py keeps true.
use mr_hide.Prelude.{
  Bool-cases, Option-cases, All, All-concat, Has, All-Has, Has-append_left, Has-append_right,
  any-eq-false, Text, text_eq_iff, ℕ, ◌≡◌, refl, sym, ap, subst, ◌∙◌, inl, inr, false, not, ◌&&◌,
  some, List, [], ◌∷◌, ◌++◌, append_assoc, append-nil, map-append, arith, text_eq, contains,
}
use mr_hide.Errors.{mapping_mode_mismatch, privacy, ok, >>=-eq-ok, after_guard, ok-injective}
use mr_hide.Policy.{SubstitutionMode, alias, same_mode}
use mr_hide.Privacy.Unicode.{Unicode}
use mr_hide.Privacy.Models.{DetectedSpan, is_empty}
use mr_hide.Privacy.Normalization.{normalize_entity}
use mr_hide.Privacy.Scoring.{TokenScorer}
use mr_hide.Privacy.Mapping.{MappingRecord, mapping_table, find_record, find}
use mr_hide.Privacy.Mapping.Transform.{
  Replacement, Progress, span_text, record_for, add_record, new_record, known_record, replace_span,
  replace_spans,
}
use mr_hide.Privacy.Mapping.Splice.{spans_of}
use mr_hide.Privacy.Mapping.Scan.Shape.{IsAlias}
use mr_hide.Privacy.Mapping.Substitutes.{collides_with, collides, next_substitute}
use mr_hide.Privacy.Mapping.Valid.{
  IsValid, mapping_table_lem, IsSeparate, IsConsistent, IsValid-IsConsistent,
}
use mr_hide.Privacy.Mapping.Scan.Known.{substitutes_of}
use mr_hide.Privacy.Mapping.Fresh.{next_substitute_lem}
use mr_hide.Prelude.Sorting.{All-imp}

-- The record has the type of the span, and its key is the normal form of the text that is replaced.
abbrev pub SameEntity : Unicode → Text → Replacement → Type 0
SameEntity u t (span, item) =
    (item.entity_type ≡ span.entity_type)
    × (item.normalized ≡ normalize_entity u (span_text t span) span.entity_type)

pub record IsSound (u : Unicode) (mode : SubstitutionMode) (t : Text) (p : Progress) : Type 0 where
  pub valid : IsConsistent p.working.records
  pub absent : All (λ r. contains r.substitute t ≡ false) p.working.records
  pub aliased : mode ≡ alias → All (λ r. IsAlias r.substitute) p.working.records
  pub keyed :
      All (λ r. normalize_entity u r.original r.entity_type ≡ r.normalized) p.working.records
  pub forbids : Has t p.forbidden
  pub used : All (λ r. Has r.1 p.working.records) p.replacements
  pub same : All (SameEntity u t) p.replacements

find_record_sound :
    (entity_type normalized : Text) (records : List MappingRecord) {item : MappingRecord}
    → find_record entity_type normalized records ≡ some item
    → Has item records × (item.entity_type ≡ entity_type) × (item.normalized ≡ normalized)
unfolding find_record
find_record_sound entity_type normalized [] h = cc
find_record_sound entity_type normalized (r ∷ records) {item} h =
    elim (Bool-cases (text_eq r.entity_type entity_type && text_eq r.normalized normalized)) [
      | inl e ↦
          let p : r ≡ item = ground arith in
          (
            inl p,
            subst (λ x. x.entity_type ≡ entity_type) p
                ((text_eq_iff r.entity_type entity_type).0 (ground arith)),
            subst (λ x. x.normalized ≡ normalized) p
                ((text_eq_iff r.normalized normalized).0 (ground arith)),
          )
      | inr e ↦
          let (m, a, b) = find_record_sound entity_type normalized records (rw e at h) in
          (inr m, a, b)
    ]

-- What collides with no forbidden text is not in the text, if that is forbidden.
absent_of_free :
    (s t : Text) (forbidden : List Text)
    → is_empty s ≡ false
    → collides s forbidden ≡ false
    → Has t forbidden
    → contains s t ≡ false
unfolding collides contains
absent_of_free [] t forbidden n h m = cc
absent_of_free (c ∷ s) t forbidden n h m = go t (any-eq-false (collides_with (c ∷ s)) forbidden h m)
  where
    go : (x : Text) → collides_with (c ∷ s) x ≡ false → contains (c ∷ s) x ≡ false
    go [] h = refl
    go (d ∷ x) h = ground arith

module _ (u : Unicode) (ipv6 : ℕ → Text) (scorer : TokenScorer) (mode : SubstitutionMode)
    (t : Text) where
  -- one more span is replaced
  abbrev pub Advances : Progress → DetectedSpan → Progress → Type 0
  Advances p span p' =
      IsSound u mode t p' × (spans_of p'.replacements ≡ spans_of p.replacements ++ span ∷ [])

  abbrev key : DetectedSpan → Text
  key span = normalize_entity u (span_text t span) span.entity_type

  module _ (p : Progress) (span : DetectedSpan) (v : IsSound u mode t p) (substitute : Text)
      (free : collides substitute p.forbidden ≡ false)
      (shape : mode ≡ alias → IsAlias substitute) where
    item : MappingRecord
    item = record_for u ipv6 scorer mode t span (key span) substitute

    records : List MappingRecord
    unfolding item
    records = p.working.records ++ item ∷ []

    after : Progress
    unfolding records
    after = record {
      working = record { records = records };
      forbidden = substitute ∷ span_text t span ∷ p.forbidden;
      replacements = p.replacements ++ (span, item) ∷ [];
    }

    after-Advances : IsValid u records → Advances p span after
    unfolding after
    after-Advances valid = (
      record {
        valid = consistent;
        absent =
            All-concat (λ r. contains r.substitute t ≡ false) p.working.records v.absent
              (absent_of_free substitute t p.forbidden
                (All-Has (IsSeparate (substitutes_of records)) records consistent.separate
                  (Has-append_right item p.working.records (item ∷ []) (inl refl))).0
                free v.forbids);
        aliased =
            λ e. All-concat (λ r. IsAlias r.substitute) p.working.records (v.aliased e) (shape e);
        keyed =
            All-concat (λ r. normalize_entity u r.original r.entity_type ≡ r.normalized)
              p.working.records v.keyed refl;
        forbids = inr (inr v.forbids);
        used =
            All-concat (λ r. Has r.1 records) p.replacements
              (All-imp (λ r. Has r.1 p.working.records) (λ r. Has r.1 records) p.replacements
                (λ r. Has-append_left r.1 p.working.records (item ∷ [])) v.used)
              (Has-append_right item p.working.records (item ∷ []) (inl refl));
        same = All-concat (SameEntity u t) p.replacements v.same (refl, refl);
      },
      map-append (λ r. r.0) p.replacements ((span, item) ∷ []),
    )
      where
        consistent : IsConsistent records
        consistent = IsValid-IsConsistent u records valid

    add_record-Advances :
        (p' : Progress)
        → add_record u ipv6 scorer mode t p span (key span) substitute ≡ ok p'
        → Advances p span p'
    unfolding add_record after
    add_record-Advances p' h =
        let (table, e, q) = >>=-eq-ok (mapping_table u records) _ h in
        let (same, valid) = mapping_table_lem u records table e in
        subst (Advances p span)
          (ap
              (λ x. record {
                working = x;
                forbidden = substitute ∷ span_text t span ∷ p.forbidden;
                replacements = p.replacements ++ (span, item) ∷ [];
              })
              (sym same)
            ∙ ok-injective q)
          (after-Advances valid)

  new_record-Advances :
      (p p' : Progress) (span : DetectedSpan)
      → IsSound u mode t p
      → new_record u ipv6 scorer mode t p span (key span) ≡ ok p'
      → Advances p span p'
  unfolding new_record
  new_record-Advances p p' span v h =
      let (s, e, q) =
        >>=-eq-ok (next_substitute ipv6 p.working span.entity_type mode p.forbidden scorer)
          (add_record u ipv6 scorer mode t p span (key span)) h in
      let (free, shape) =
        next_substitute_lem ipv6 p.working span.entity_type mode p.forbidden scorer e in
      add_record-Advances p span v s free shape p' q

  known_record-Advances :
      (p p' : Progress) (span : DetectedSpan) (r : MappingRecord)
      → IsSound u mode t p
      → Has r p.working.records
      → SameEntity u t (span, r)
      → known_record u ipv6 scorer mode t p span r ≡ ok p'
      → Advances p span p'
  unfolding known_record
  known_record-Advances p p' span r v m k h =
      let (_, e) =
        after_guard (not (same_mode r.mode mode)) (privacy mapping_mode_mismatch)
          (ok (record p { replacements = p.replacements ++ (span, r) ∷ [] })) h in
      subst (Advances p span) (ok-injective e) (
        record {
          valid = v.valid;
          absent = v.absent;
          aliased = v.aliased;
          keyed = v.keyed;
          forbids = v.forbids;
          used = All-concat (λ x. Has x.1 p.working.records) p.replacements v.used m;
          same = All-concat (SameEntity u t) p.replacements v.same k;
        },
        map-append (λ x. x.0) p.replacements ((span, r) ∷ []),
      )

  pub replace_span-Advances :
      (p p' : Progress) (span : DetectedSpan)
      → IsSound u mode t p
      → replace_span u ipv6 scorer mode t p span ≡ ok p'
      → Advances p span p'
  unfolding replace_span
  replace_span-Advances p p' span v h =
      elim (Option-cases (find p.working span.entity_type (key span))) [
        | inl e ↦ new_record-Advances p p' span v (ground arith)
        | inr (r, e) ↦
            let (m, a, b) = find_record_sound span.entity_type (key span) p.working.records e in
            known_record-Advances p p' span r v m (a, b) (ground arith)
      ]

  -- The loop keeps what is sound, and its replacements are those of the spans.
  pub replace_spans-IsSound :
      (p p' : Progress) (spans : List DetectedSpan)
      → IsSound u mode t p
      → replace_spans u ipv6 scorer mode t p spans ≡ ok p'
      → IsSound u mode t p' × (spans_of p'.replacements ≡ spans_of p.replacements ++ spans)
  unfolding replace_spans
  replace_spans-IsSound p p' [] v h =
      subst (λ x. IsSound u mode t x × (spans_of x.replacements ≡ spans_of p.replacements ++ []))
        (ok-injective h) (v, sym (append-nil (spans_of p.replacements)))
  replace_spans-IsSound p p' (span ∷ spans) v h =
      let (q, e, k) =
        >>=-eq-ok (replace_span u ipv6 scorer mode t p span)
          (λ x. replace_spans u ipv6 scorer mode t x spans) h in
      let (w, a) = replace_span-Advances p q span v e in
      let (z, b) = replace_spans-IsSound q p' spans w k in
      (z, b ∙ ap (λ x. x ++ spans) a ∙ append_assoc (spans_of p.replacements) (span ∷ []) spans)
