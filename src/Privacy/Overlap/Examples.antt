-- ===== src/Privacy/Overlap/Examples.antt =====
-- The theorems about src/mr_hide/privacy/overlap.py at two overlapping candidates and one apart.
use mr_hide.Prelude.{length, All, Text, ℕ, ◌≡◌, refl, inl, inr, List, [], ◌∷◌, arith, text, text_le}
use mr_hide.Errors.{ok}
use mr_hide.Privacy.Models.{DetectedSpan}
use mr_hide.Privacy.Overlap.{ranks_before, overlaps, accept, starts_before, resolve_overlaps}
use mr_hide.Privacy.Overlap.Apart.{IsSpan, Chain}
use mr_hide.Privacy.Overlap.Laws.{resolve_overlaps-Chain, resolve_overlaps-Settled}
use mr_hide.Privacy.Overlap.Order.{Settled}
use mr_hide.Prelude.Sorting.{sorted}

abbrev at : ℕ → ℕ → ℕ → DetectedSpan
unfolding text
at start end score = record {
  start = start;
  end = end;
  entity_type = text "PERSON";
  score = score;
  language = text "en";
  source = text "presidio";
}

abbrev flat : Text → ℕ
flat t = 0

abbrev sentence : Text
unfolding text
sentence = text "Ada Lovelace wrote"

abbrev candidates : List DetectedSpan
candidates = at 13 18 500000 ∷ at 4 12 800000 ∷ at 0 12 800000 ∷ []

abbrev chosen : List DetectedSpan
chosen = at 0 12 800000 ∷ at 13 18 500000 ∷ []

resolve_run : resolve_overlaps flat sentence candidates ≡ ok chosen
unfolding resolve_overlaps accept overlaps ranks_before starts_before text_le text sorted at
    sentence
resolve_run = refl

candidates-IsSpan : All IsSpan candidates
unfolding at
candidates-IsSpan = (omega arith, (omega arith, (omega arith, tt)))

resolve_overlaps-Chain_example : Chain 0 (length sentence) chosen
resolve_overlaps-Chain_example =
    resolve_overlaps-Chain flat sentence candidates resolve_run candidates-IsSpan

resolve_overlaps-Settled_example : Settled chosen (at 4 12 800000)
resolve_overlaps-Settled_example =
    resolve_overlaps-Settled flat sentence candidates resolve_run (at 4 12 800000) (inr (inl refl))
