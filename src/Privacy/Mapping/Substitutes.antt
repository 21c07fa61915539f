-- ===== src/Privacy/Mapping/Substitutes.antt =====
-- src/mr_hide/privacy/mapping.py: the allocation of substitutes. Running out of attempts is
-- `substitute-space-exhausted`, as in the source.
use mr_hide.Prelude.{
  ltb, ◌==◌, if◌then◌else◌, length, drop, any, keep, slice, Text, ℕ, zero, suc, ◌+◌, ◌-◌, ◌*◌, ◌%◌,
  Bool, true, not, ◌&&◌, ◌||◌, Option, none, some, List, [], ◌∷◌, ◌++◌, text, text_le, text_eq,
  contains,
}
use mr_hide.Prelude.Decimal.{decimal, padded, number}
use mr_hide.Errors.{substitute_space_exhausted, privacy, builtin, Result, err, ok, ◌>>=◌}
use mr_hide.Policy.{SubstitutionMode, alias, compatibility, same_mode}
use mr_hide.Privacy.Normalization.{
  Family, person, email, phone, card, ip, location, organization, medical, secret, value,
  same_family, entity_family,
}
use mr_hide.Privacy.Scoring.{TokenScorer, safe_cost}
use mr_hide.Privacy.Mapping.{MappingRecord, MappingTable}
use mr_hide.Privacy.Models.{is_empty}

-- `_FAMILY_CODES`
unfoldable pub family_code : Family → ℕ
family_code person = b'P'
family_code email = b'E'
family_code phone = b'T'
family_code card = b'C'
family_code ip = b'I'
family_code location = b'L'
family_code organization = b'O'
family_code medical = b'M'
family_code secret = b'S'
family_code value = b'V'

-- `_SURROGATES`
unfoldable pub surrogates : Family → List Text
surrogates person =
    text "Alex Morgan" ∷ text "Taylor Reed" ∷ text "Jordan Blake" ∷ text "Casey Quinn" ∷ []
surrogates email =
    text "alex.morgan@example.invalid"
    ∷ text "taylor.reed@example.invalid"
    ∷ text "jordan.blake@example.invalid"
    ∷ []
surrogates phone = text "+1 202-555-0100" ∷ text "+1 202-555-0101" ∷ text "+1 202-555-0102" ∷ []
surrogates card = text "4111 1111 1111 1111" ∷ text "5555 5555 5555 4444" ∷ []
surrogates ip = text "192.0.2.1" ∷ text "192.0.2.2" ∷ text "192.0.2.3" ∷ []
surrogates location = text "Example City" ∷ text "Sample Harbor" ∷ text "Demo Valley" ∷ []
surrogates organization =
    text "Example Organization" ∷ text "Sample Cooperative" ∷ text "Demo Works" ∷ []
surrogates medical = text "TEST-MEDICAL-0001" ∷ text "TEST-MEDICAL-0002" ∷ []
surrogates secret =
    text "INVALID_SECRET_0001" ∷ text "INVALID_SECRET_0002" ∷ text "INVALID_SECRET_0003" ∷ []
surrogates value = text "Example Value 1" ∷ text "Example Value 2" ∷ text "Example Value 3" ∷ []

-- `family.title()`
unfoldable pub family_title : Family → Text
family_title person = text "Person"
family_title email = text "Email"
family_title phone = text "Phone"
family_title card = text "Card"
family_title ip = text "Ip"
family_title location = text "Location"
family_title organization = text "Organization"
family_title medical = text "Medical"
family_title secret = text "Secret"
family_title value = text "Value"

abbrev pub max_allocation_attempts : ℕ
max_allocation_attempts = 256

-- the brackets of an alias; 0x27e6 and 0x27e7 are the white square brackets
abbrev pub bracketed : ℕ → ℕ → ℕ → Text → Text
bracketed open_mark close_mark code number = open_mark ∷ code ∷ number ++ close_mark ∷ []

unfoldable pub candidate_aliases : Family → ℕ → List Text
unfolding family_code
candidate_aliases family index =
    bracketed b'<' b'>' (family_code family) (decimal index)
    ∷ bracketed b'[' b']' (family_code family) (decimal index)
    ∷ bracketed 0x27e6 0x27e7 (family_code family) (decimal index)
    ∷ []

-- `taken and (candidate in taken or taken in candidate)`
unfoldable pub collides_with : Text → Text → Bool
collides_with candidate taken =
    not (is_empty taken) && (contains candidate taken || contains taken candidate)

-- A set of forbidden texts is a list: the code asks only whether some member collides.
unfoldable pub collides : Text → List Text → Bool
unfolding collides_with
collides candidate forbidden = any (collides_with candidate) forbidden

-- the keys of `min`, in the order of the items
unfoldable pub score_all : TokenScorer → List Text → Result (List (ℕ × Text))
score_all scorer [] = ok []
score_all scorer (item ∷ items) = do
  cost ← safe_cost scorer item
  rest ← score_all scorer items
  ok ((cost, item) ∷ rest)

-- `(cost, len(item), item)` of the one is below that of the other
unfoldable pub cheaper : ℕ × Text → ℕ × Text → Bool
cheaper a b =
    ltb a.0 b.0
    || (a.0 == b.0)
      && (ltb (length a.1) (length b.1)
          || (length a.1 == length b.1) && (text_le a.1 b.1 && not (text_eq a.1 b.1)))

unfoldable pub least : ℕ × Text → List (ℕ × Text) → Text
unfolding cheaper
least best [] = best.1
least best (item ∷ items) = least (if cheaper item best then item else best) items

unfoldable pub choose : List (ℕ × Text) → Result Text
unfolding least
choose [] = err builtin
choose (first ∷ items) = ok (least first items)

-- the loop of `_allocate_alias`, for the attempts that are left
unfoldable pub allocate_alias_loop : ℕ → Family → ℕ → List Text → TokenScorer → Result Text
unfolding score_all choose
allocate_alias_loop zero family index forbidden scorer = err (privacy substitute_space_exhausted)
allocate_alias_loop (suc attempts) family index forbidden scorer =
    let rest = allocate_alias_loop attempts family (index + 1) forbidden scorer in
    elim (keep (λ item. not (collides item forbidden)) (candidate_aliases family index)) [
      | [] ↦ rest
      | first ∷ more ↦ do scored ← score_all scorer (first ∷ more); choose scored
    ]

unfoldable pub allocate_alias : Family → ℕ → List Text → TokenScorer → Result Text
allocate_alias = allocate_alias_loop max_allocation_attempts

-- the last digits of a number of 15, for `_test_card_number`
unfoldable pub card_body : ℕ → Text
card_body index = let body = text "424242" ++ padded 9 index in drop (length body - 15) body

-- the sum over the digits; the flag says whether the position is even
unfoldable pub card_total : Bool → Text → ℕ
card_total even [] = 0
card_total even (c ∷ s) =
    let digit = c - 48 in
    let adjusted = if even then digit * 2 else digit in
    (if ltb 9 adjusted then adjusted - 9 else adjusted) + card_total (not even) s

unfoldable pub test_card_number : ℕ → Text
unfolding card_body card_total
test_card_number index =
    let body = card_body index in
    let check = (10 - card_total true body % 10) % 10 in
    let number = body ++ decimal check in
    slice 0 4 number
    ++ b' ' ∷ slice 4 8 number
    ++ b' ' ∷ slice 8 12 number
    ++ b' ' ∷ slice 12 16 number

nth : List Text → ℕ → Option Text
nth [] i = none
nth (x ∷ xs) zero = some x
nth (x ∷ xs) (suc i) = nth xs i

-- the branches behind the bank of `_surrogate_candidate`; `ipv6` is the text of the address that lies
-- so far behind `2001:db8::`
beyond_bank : (ℕ → Text) → Family → ℕ → Text
unfolding test_card_number family_title
beyond_bank ipv6 secret index = text "INVALID_SECRET_" ++ padded 4 (index + 1)
beyond_bank ipv6 email index =
    text "example.person" ++ decimal (index + 1) ++ text "@example.invalid"
beyond_bank ipv6 phone index = text "+1 202-555-" ++ padded 4 (100 + index)
beyond_bank ipv6 ip index = ipv6 (index + 1)
beyond_bank ipv6 card index = test_card_number index
beyond_bank ipv6 family index = text "Example " ++ family_title family ++ b' ' ∷ decimal (index + 1)

unfoldable pub surrogate_candidate : (ℕ → Text) → Family → ℕ → Text
unfolding surrogates nth beyond_bank
surrogate_candidate ipv6 family index = elim (nth (surrogates family) index) [
  | some candidate ↦ candidate
  | none ↦ beyond_bank ipv6 family index
]

unfoldable pub allocate_surrogate_loop : ℕ → (ℕ → Text) → Family → ℕ → List Text → Result Text
allocate_surrogate_loop zero ipv6 family index forbidden = err (privacy substitute_space_exhausted)
allocate_surrogate_loop (suc attempts) ipv6 family index forbidden =
    let rest = allocate_surrogate_loop attempts ipv6 family (index + 1) forbidden in
    let candidate = surrogate_candidate ipv6 family index in
    if collides candidate forbidden then rest else ok candidate

unfoldable pub allocate_surrogate : (ℕ → Text) → Family → ℕ → List Text → Result Text
allocate_surrogate = allocate_surrogate_loop max_allocation_attempts

-- the records of a family in a mode
unfoldable pub used_count : Family → SubstitutionMode → List MappingRecord → ℕ
used_count family mode records = length (
    keep (λ item. same_family (entity_family item.entity_type) family && same_mode item.mode mode)
      records)

unfoldable pub next_substitute :
    (ℕ → Text) → MappingTable → Text → SubstitutionMode → List Text → TokenScorer → Result Text
next_substitute ipv6 table entity_type alias forbidden scorer =
    let family = entity_family entity_type in
    allocate_alias family (used_count family alias table.records) forbidden scorer
next_substitute ipv6 table entity_type compatibility forbidden scorer =
    let family = entity_family entity_type in
    allocate_surrogate ipv6 family (used_count family compatibility table.records) forbidden
