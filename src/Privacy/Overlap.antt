-- ===== src/Privacy/Overlap.antt =====
-- src/mr_hide/privacy/overlap.py
pub mod Order
pub mod Apart
pub mod Laws
mod Examples
use mr_hide.Prelude.{
  ltb, leb, ◌==◌, if◌then◌else◌, length, any, Text, ℕ, Bool, ◌&&◌, ◌||◌, List, [], ◌∷◌, ◌++◌, text,
  text_le, text_eq,
}
use mr_hide.Prelude.Sorting.{sorted}
use mr_hide.Errors.{detection_outside_text, privacy, Result, err, ok}
use mr_hide.Privacy.Models.{DetectedSpan, span_length}

-- `DEFAULT_PRIORITY.get(entity_type, 0)`
unfoldable pub default_priority : Text → ℕ
default_priority t =
    if text_eq t (text "PRIVATE_KEY")
    then 100
    else if text_eq t (text "DATABASE_CREDENTIAL")
    then 95
    else if text_eq t (text "AUTH_HEADER")
    then 90
    else if text_eq t (text "ACCESS_TOKEN")
    then 85
    else if text_eq t (text "API_KEY")
    then 80
    else if text_eq t (text "JWT")
    then 75
    else if text_eq t (text "PASSWORD")
    then 70
    else 0

module _ (priority : Text → ℕ) where
  -- whether the sort key of the one is at most that of the other; a negated number of the key
  -- turns its comparison round
  unfoldable pub ranks_before : DetectedSpan → DetectedSpan → Bool
  ranks_before a b =
      ltb b.score a.score
      || (a.score == b.score)
        && (ltb (span_length b) (span_length a)
            || (span_length a == span_length b)
              && (ltb (priority b.entity_type) (priority a.entity_type)
                  || (priority a.entity_type == priority b.entity_type)
                    && (ltb a.start b.start
                        || (a.start == b.start)
                          && (ltb a.end b.end
                              || (a.end == b.end) && text_le a.entity_type b.entity_type))))

-- `candidate.start < current.end and current.start < candidate.end`
unfoldable pub overlaps : DetectedSpan → DetectedSpan → Bool
overlaps candidate current = ltb candidate.start current.end && ltb current.start candidate.end

-- the loop over the ranked candidates, which appends to `accepted`
unfoldable pub accept : List DetectedSpan → List DetectedSpan → List DetectedSpan
accept accepted [] = accepted
accept accepted (candidate ∷ ranked) =
    accept (if any (overlaps candidate) accepted then accepted else accepted ++ candidate ∷ [])
      ranked

-- `(span.start, span.end)`, compared
unfoldable pub starts_before : DetectedSpan → DetectedSpan → Bool
starts_before a b = ltb a.start b.start || (a.start == b.start) && leb a.end b.end

unfoldable pub resolve_overlaps : (Text → ℕ) → Text → List DetectedSpan → Result (List DetectedSpan)
resolve_overlaps priority t spans =
    let candidates = spans in
    if any (λ s. ltb (length t) s.end) candidates
    then err (privacy detection_outside_text)
    else ok (sorted starts_before (accept [] (sorted (ranks_before priority) candidates)))
