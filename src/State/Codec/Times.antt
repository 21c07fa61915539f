-- ===== src/State/Codec/Times.antt =====
-- The times in the documents of src/mr_hide/state/codec.py.
use mr_hide.Prelude.{
  ◌==◌, ==_iff, length, any, Text, is_prefix-append, ℕ, suc, ◌-◌, ◌<◌, ◌≡◌, refl, sym, ap, subst,
  ◌∙◌, true, false, [], ◌∷◌, ◌++◌, append-nil, arith, text, is_prefix,
}
use mr_hide.State.Leaves.{
  CodecLibrary, replace_text, unless_malformed, timestamp, required_timestamp,
}
use mr_hide.State.Models.{aware}
use mr_hide.State.Codec.Laws.{instants, IsFaithful}
use mr_hide.Json.{string}
use mr_hide.Errors.{vault_state_invalid, ok}

replace_text-drop : (old new t : Text) → replace_text old new (length t) t ≡ []
unfolding replace_text
replace_text-drop old new [] = refl
replace_text-drop old new (c ∷ t) = replace_text-drop old new t

prefix_of_itself : (t : Text) → is_prefix t t ≡ true
prefix_of_itself t = subst (λ s. is_prefix t s ≡ true) (append-nil t) (is_prefix-append t [])

-- A text whose first character is not found before it is replaced once, at the end.
replace_text-once :
    (c : ℕ) (old new t : Text)
    → any (λ d. d == c) t ≡ false
    → replace_text (c ∷ old) new 0 (t ++ c ∷ old) ≡ t ++ new
unfolding replace_text is_prefix
replace_text-once c old new [] h =
    rw ((==_iff c c).1 refl, prefix_of_itself old)
      (ap (λ k. new ++ replace_text (c ∷ old) new k old) less ∙ drop_all)
  where
    less : suc (length old) - 1 ≡ length old
    less = omega arith

    drop_all : new ++ replace_text (c ∷ old) new (length old) old ≡ new
    drop_all = rw (replace_text-drop (c ∷ old) new old) (append-nil new)
replace_text-once c old new (d ∷ t) h =
    let other : (c == d) ≡ false = ground arith in
    rw other (ap (λ r. d ∷ r) (replace_text-once c old new t (ground arith)))

module _ (l : CodecLibrary) (faithful : IsFaithful l) (n : ℕ) (small : n < instants) where
  timestamp_lem : timestamp l n ≡ faithful.local_time n ++ text "Z"
  unfolding timestamp text
  timestamp_lem =
      ap (replace_text (text "+00:00") (text "Z") 0) (faithful.in_utc n small)
      ∙ replace_text-once b'+' (text "00:00") (text "Z") (faithful.local_time n)
          (faithful.local_time-IsLocal n small).0

  pub required_timestamp-timestamp : required_timestamp l (string (timestamp l n)) ≡ ok (aware n)
  unfolding required_timestamp text
  required_timestamp-timestamp =
      ap (λ t. unless_malformed vault_state_invalid (l.from_isoformat t))
        (ap (replace_text (text "Z") (text "+00:00") 0) timestamp_lem
          ∙ replace_text-once b'Z' [] (text "+00:00") (faithful.local_time n)
              (faithful.local_time-IsLocal n small).1
          ∙ sym (faithful.in_utc n small))
      ∙ ap (unless_malformed vault_state_invalid) (faithful.iso_again n small)
