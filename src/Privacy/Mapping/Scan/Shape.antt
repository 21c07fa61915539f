-- ===== src/Privacy/Mapping/Scan/Shape.antt =====
-- The texts that `_RESERVED_ALIAS` of src/mr_hide/privacy/mapping.py matches as a whole: an opening
-- bracket stands at their start, and nowhere else.
use mr_hide.Prelude.{
  ◌==◌, Bool-cases, Option-cases, length, All, Text, ℕ, suc, ◌+◌, ◌≡◌, refl, ◌≢◌, ◌⊎◌, inl, inr,
  true, false, none, some, [], ◌∷◌, ◌++◌, arith, is_prefix,
}
use mr_hide.Prelude.Decimal.{is_digit}
use mr_hide.Privacy.Mapping.Restore.{is_upper, closer, match_digits, match_code, match_alias}

abbrev pub IsAlias : Text → Type 0
IsAlias s = match_alias s ≡ some (length s)

-- no opening bracket
abbrev pub Closed : Text → Type 0
Closed s = All (λ c. closer c ≡ none) s

digit_is_closed : (c : ℕ) → is_digit c ≡ true → closer c ≡ none
unfolding is_digit closer
digit_is_closed c h = ground arith

upper_is_closed : (c : ℕ) → is_upper c ≡ true → closer c ≡ none
unfolding is_upper closer
upper_is_closed c h = ground arith

closer_is_closed : (c e : ℕ) → closer c ≡ some e → closer e ≡ none
unfolding closer
closer_is_closed c e h = ground arith

opener_not_closer : (o c e : ℕ) {x : ℕ} → closer o ≡ some x → closer c ≡ some e → o ≢ e
opener_not_closer o c e h k p = cc (closer_is_closed c e k)

match_digits_tail :
    (e n c : ℕ) (s : Text)
    → match_digits e n (c ∷ s) ≡ some (n + suc (length s))
    → ((is_digit c ≡ true) × (match_digits e (n + 1) s ≡ some (n + 1 + length s)))
      ⊎ ((c ≡ e) × (length s ≡ 0))
unfolding match_digits
match_digits_tail e n c s h = elim (Bool-cases (is_digit c)) [
  | inl d ↦
      let same : n + 1 + length s ≡ n + suc (length s) = omega arith in inl (d, rw same (rw d at h))
  | inr d ↦ inr (ground arith, ground arith)
]

match_digits-Closed :
    (e n : ℕ) (s : Text) → closer e ≡ none → match_digits e n s ≡ some (n + length s) → Closed s
match_digits-Closed e n [] k h = tt
match_digits-Closed e n (c ∷ s) k h = elim (match_digits_tail e n c s h) [
  | inl (d, rest) ↦ (digit_is_closed c d, match_digits-Closed e (n + 1) s k rest)
  | inr (p, z) ↦ (rw p k, nothing s z)
]
  where
    nothing : (x : Text) → length x ≡ 0 → Closed x
    nothing [] z = tt
    nothing (y ∷ x) z = absurd (omega arith)

-- A match within a text does not depend on what follows the text.
match_digits-append :
    (e n : ℕ) (s after : Text) (m : ℕ)
    → match_digits e n s ≡ some m
    → match_digits e n (s ++ after) ≡ some m
unfolding match_digits
match_digits-append e n [] after m h = cc
match_digits-append e n (c ∷ s) after m h = ground (arith, match_digits-append e (n + 1) s after m)

module _ (o : ℕ) {x : ℕ} (opens : closer o ≡ some x) where
  not_digit : is_digit o ≡ false
  unfolding is_digit closer
  not_digit = ground arith

  not_upper : is_upper o ≡ false
  unfolding is_upper closer
  not_upper = ground arith

  not_closer : (c e : ℕ) → closer c ≡ some e → (o == e) ≡ false
  unfolding closer
  not_closer c e k = ground arith

  -- An opening bracket stops a match.
  match_digits_stop :
      (e n : ℕ) (s after : Text)
      → (o == e) ≡ false
      → match_digits e n (s ++ o ∷ after) ≡ match_digits e n s
  unfolding match_digits
  match_digits_stop e n [] after p = rw (not_digit, p)
  match_digits_stop e n (c ∷ s) after p = ground (arith, match_digits_stop e (n + 1) s after p)

  match_code_stop :
      (e : ℕ) (s after : Text) → (o == e) ≡ false → match_code e (s ++ o ∷ after) ≡ match_code e s
  unfolding match_code
  match_code_stop e [] [] p = refl
  match_code_stop e [] (d ∷ after) p = rw not_upper
  match_code_stop e (code ∷ []) after p = ground (arith, not_digit)
  match_code_stop e (code ∷ digit ∷ s) after p = rw (match_digits_stop e 3 s after p)

  pub match_alias_stop :
      (c : ℕ) (s after : Text) → match_alias (c ∷ (s ++ o ∷ after)) ≡ match_alias (c ∷ s)
  match_alias_stop c s after = elim (Option-cases (closer c)) [
    | inl e ↦ (unfold match_alias in ground (arith, e))
    | inr (m, e) ↦
        (unfold match_alias in ground (arith, e, match_code_stop m s after (not_closer c m e)))
  ]

  -- A text without opening brackets is a prefix of what stands before the bracket, if at all.
  pub is_prefix_stop :
      (k s after : Text) → Closed k → is_prefix k (s ++ o ∷ after) ≡ true → is_prefix k s ≡ true
  unfolding is_prefix
  is_prefix_stop [] s after q h = refl
  is_prefix_stop (c ∷ k) [] after q h =
      let same : c ≡ o = ground arith in absurd (clash (rw same at q.0) opens)
    where
      clash : closer o ≡ none → closer o ≡ some x → ⊥
      clash a b = cc
  is_prefix_stop (c ∷ k) (d ∷ s) after q h = ground (arith, is_prefix_stop k s after q.1)

match_code-append :
    (e : ℕ) (s after : Text) (m : ℕ) → match_code e s ≡ some m → match_code e (s ++ after) ≡ some m
unfolding match_code
match_code-append e [] after m h = cc
match_code-append e (code ∷ []) after m h = cc
match_code-append e (code ∷ digit ∷ s) after m h = ground (arith, match_digits-append e 3 s after m)

pub match_alias-append :
    (s after : Text) (m : ℕ) → match_alias s ≡ some m → match_alias (s ++ after) ≡ some m
unfolding match_alias
match_alias-append [] after m h = cc
match_alias-append (c ∷ s) after m h = elim (Option-cases (closer c)) [
  | inl e ↦ ground arith
  | inr (k, e) ↦ ground (arith, match_code-append k s after m)
]

match_code-Closed :
    (e : ℕ) (s : Text) → closer e ≡ none → match_code e s ≡ some (suc (length s)) → Closed s
unfolding match_code
match_code-Closed e [] k h = cc
match_code-Closed e (code ∷ []) k h = cc
match_code-Closed e (code ∷ digit ∷ s) k h =
    let same : 3 + length s ≡ suc (length (code ∷ digit ∷ s)) = omega arith in
    (
      upper_is_closed code (ground arith),
      (digit_is_closed digit (ground arith), match_digits-Closed e 3 s k (rw same (ground arith))),
    )

-- An alias is an opening bracket and a text without any.
pub record Opened (s : Text) : Type 0 where
  pub head : ℕ
  pub rest : Text
  pub mark : ℕ
  pub parts : s ≡ head ∷ rest
  pub opens : closer head ≡ some mark
  pub closed : Closed rest

pub IsAlias-Opened : (s : Text) → IsAlias s → Opened s
IsAlias-Opened [] h = unfold match_alias in cc
IsAlias-Opened (c ∷ s) h = elim (Option-cases (closer c)) [
  | inl e ↦ (unfold match_alias in absurd (ground arith))
  | inr (k, e) ↦ record {
    head = c;
    rest = s;
    mark = k;
    parts = refl;
    opens = e;
    closed = match_code-Closed k s (closer_is_closed c k e) (unfold match_alias in ground arith);
  }
]
