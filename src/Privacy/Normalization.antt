-- ===== src/Privacy/Normalization.antt =====
-- src/mr_hide/privacy/normalization.py
use mr_hide.Prelude.{
  ◌==◌, if◌then◌else◌, any, keep, Text, text, text_eq, ℕ, Bool, true, false, ◌&&◌, Option, none,
  some, [], ◌∷◌, ◌++◌,
}
use mr_hide.Privacy.Unicode.{Unicode}
use mr_hide.Privacy.Models.{is_empty}

-- `entity_type in _SECRET_TYPES`, `entity_type in _DIGIT_TYPES`
unfoldable pub is_secret_type : Text → Bool
is_secret_type t = any (text_eq t) (
    text "API_KEY"
    ∷ text "ACCESS_TOKEN"
    ∷ text "AUTH_HEADER"
    ∷ text "DATABASE_CREDENTIAL"
    ∷ text "JWT"
    ∷ text "PASSWORD"
    ∷ text "PRIVATE_KEY"
    ∷ text "SECRET"
    ∷ [])

unfoldable pub is_digit_type : Text → Bool
is_digit_type t = any (text_eq t) (text "CREDIT_CARD" ∷ text "IBAN_CODE" ∷ text "PHONE_NUMBER" ∷ [])

-- `re.sub(r"\s+", " ", s)`; the flag says whether the character before belongs to a run
unfoldable pub collapse : (ℕ → Bool) → Bool → Text → Text
collapse is_space run [] = []
collapse is_space run (c ∷ s) =
    let rest = collapse is_space (is_space c) s in
    if is_space c then (if run then rest else b' ' ∷ rest) else c ∷ rest

unfoldable pub lstrip : (ℕ → Bool) → Text → Text
lstrip is_space [] = []
lstrip is_space (c ∷ s) = let rest = lstrip is_space s in if is_space c then rest else c ∷ s

unfoldable pub rstrip : (ℕ → Bool) → Text → Text
rstrip is_space [] = []
rstrip is_space (c ∷ s) =
    let rest = rstrip is_space s in if is_space c && is_empty rest then [] else c ∷ rest

-- `s.strip()`
abbrev pub strip : (ℕ → Bool) → Text → Text
strip is_space s = rstrip is_space (lstrip is_space s)

-- `s.rsplit(c, 1)`, if `c` is in `s`
unfoldable pub split_last : ℕ → Text → Option (Text × Text)
split_last c [] = none
split_last c (x ∷ s) = elim (split_last c s) [
  | some (front, back) ↦ some (x ∷ front, back)
  | none ↦ if x == c then some ([], s) else none
]

unfoldable pub normalize_entity : Unicode → Text → Text → Text
unfolding is_secret_type is_digit_type collapse lstrip rstrip split_last
normalize_entity u value entity_type =
    let normalized = u.nfkc value in
    let words = u.casefold (strip u.is_space (collapse u.is_space false normalized)) in
    if is_secret_type entity_type
    then normalized
    else if is_digit_type entity_type
    then u.casefold (keep u.is_alnum normalized)
    else if text_eq entity_type (text "EMAIL_ADDRESS")
    then elim (split_last b'@' normalized) [
      | some (mailbox, domain) ↦ mailbox ++ b'@' ∷ u.casefold domain
      | none ↦ words
    ]
    else words

-- The families, whose names are the keys of `_FAMILY_CODES` and `_SURROGATES` in mapping.py.
pub data Family : Type 0 where
  person email phone card ip location organization medical secret value : Family

abbrev pub same_family : Family → Family → Bool
same_family person person = true
same_family email email = true
same_family phone phone = true
same_family card card = true
same_family ip ip = true
same_family location location = true
same_family organization organization = true
same_family medical medical = true
same_family secret secret = true
same_family value value = true
same_family _ _ = false

unfoldable pub entity_family : Text → Family
unfolding is_secret_type
entity_family t =
    if is_secret_type t
    then secret
    else if text_eq t (text "EMAIL_ADDRESS")
    then email
    else if text_eq t (text "PHONE_NUMBER")
    then phone
    else if text_eq t (text "CREDIT_CARD")
    then card
    else if text_eq t (text "IP_ADDRESS")
    then ip
    else if text_eq t (text "LOCATION")
    then location
    else if text_eq t (text "PERSON")
    then person
    else if text_eq t (text "ORGANIZATION")
    then organization
    else if text_eq t (text "MEDICAL_LICENSE")
    then medical
    else value
