-- ===== src/Privacy/Models.antt =====
-- src/mr_hide/privacy/models.py. A score, a float from 0 to 1, is a count of millionths: the code
-- only compares scores.
use mr_hide.Prelude.{
  ltb, leb, Text, text_eq, ℕ, ◌-◌, ◌<◌, ◌≡◌, Bool, true, false, not, ◌||◌, [], ◌∷◌, arith,
}
use mr_hide.Errors.{
  invalid_detection_span, invalid_detection_score, invalid_entity_type, invalid_detection_metadata,
  privacy, Result, ok, ◌>>◌, raise_if,
}
use mr_hide.Privacy.Unicode.{Unicode}

abbrev pub full_score : ℕ
full_score = 1000000

pub record DetectedSpan : Type 0 where
  pub start : ℕ
  pub end : ℕ
  pub entity_type : Text
  pub score : ℕ
  pub language : Text
  pub source : Text

-- `not s`
abbrev pub is_empty : Text → Bool
is_empty [] = true
is_empty (c ∷ s) = false

-- `__post_init__`: what the constructor checks
unfoldable pub check_span : Unicode → DetectedSpan → Result (Unit {0})
check_span u s = do
  raise_if (leb s.end s.start) (privacy invalid_detection_span)
  raise_if (ltb full_score s.score) (privacy invalid_detection_score)
  raise_if (is_empty s.entity_type || not (text_eq s.entity_type (u.upper s.entity_type)))
      (privacy invalid_entity_type)
  raise_if (is_empty s.language || is_empty s.source) (privacy invalid_detection_metadata)

-- the property `length`
abbrev pub span_length : DetectedSpan → ℕ
span_length s = s.end - s.start

-- A constructed span is not empty.
pub check_span-lt : (u : Unicode) (s : DetectedSpan) → check_span u s ≡ ok tt → s.start < s.end
unfolding check_span
check_span-lt u s h = ground arith
