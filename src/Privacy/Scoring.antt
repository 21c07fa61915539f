-- ===== src/Privacy/Scoring.antt =====
-- src/mr_hide/privacy/scoring.py, and `_safe_cost` and `_safe_metric` of
-- src/mr_hide/privacy/mapping.py. A scorer is any object: its answers range over what Python lets it
-- do. The encoding of `TiktokenScorer` is such an object's concern.
use mr_hide.Prelude.{
  ltb, leb, if◌then◌else◌, length, Text, text, ℕ, ◌+◌, ◌&&◌, Option, none, some, [], ◌∷◌,
}
use mr_hide.Errors.{token_scoring_failed, privacy, Result, ok, err}

pub data CostReply : Type 0 where
  raised not_an_int negative : CostReply
  cost_of : ℕ → CostReply

pub data MetricReply : Type 0 where
  raised not_a_str : MetricReply
  named : Text → MetricReply

pub record TokenScorer : Type 0 where
  pub metric : MetricReply
  pub cost : Text → CostReply

unfoldable pub safe_cost : TokenScorer → Text → Result ℕ
safe_cost scorer value = elim (scorer.cost value) [
  | cost_of n ↦ ok n
  | _ ↦ err (privacy token_scoring_failed)
]

checked_metric : MetricReply → Result Text
checked_metric (named []) = err (privacy token_scoring_failed)
checked_metric (named (c ∷ s)) =
    if ltb 100 (length (c ∷ s)) then err (privacy token_scoring_failed) else ok (c ∷ s)
checked_metric _ = err (privacy token_scoring_failed)

unfoldable pub safe_metric : TokenScorer → Result Text
unfolding checked_metric
safe_metric scorer = checked_metric scorer.metric

-- `len(value.encode("utf-8"))`, which raises at a surrogate
unfoldable pub utf8_length : Text → Option ℕ
utf8_length [] = some 0
utf8_length (c ∷ s) = elim (utf8_length s) [
  | none ↦ none
  | some n ↦
      if ltb c 0x80
      then some (n + 1)
      else if ltb c 0x800
      then some (n + 2)
      else if leb 0xd800 c && leb c 0xdfff
      then none
      else if ltb c 0x10000
      then some (n + 3)
      else some (n + 4)
]

abbrev pub character_scorer : TokenScorer
unfolding utf8_length
character_scorer = record {
  metric = named (text "utf8-bytes");
  cost = λ value. elim (utf8_length value) [ none ↦ raised | some n ↦ cost_of n ];
}
