-- ===== src/Privacy/Mapping/Restore.antt =====
-- src/mr_hide/privacy/mapping.py: `restore_text`. The two regular expressions of the source, the
-- reserved aliases and the alternation of the known substitutes, are scanners from left to right: a
-- match at a position is taken, and the search goes on behind it. `skip` counts the characters of the
-- last match that are still to be passed over.
use mr_hide.Prelude.{
  leb, ◌==◌, if◌then◌else◌, length, take, any, Text, ℕ, zero, suc, ◌+◌, ◌-◌, Bool, not, ◌&&◌,
  Option, none, some, List, [], ◌∷◌, ◌++◌, map, text_eq, is_prefix,
}
use mr_hide.Prelude.Decimal.{is_digit}
use mr_hide.Prelude.Dict.{Dict, get, put_all, keys}
use mr_hide.Prelude.Sorting.{sorted}
use mr_hide.Errors.{unknown_substitute, privacy, Result, ok, err, ◌>>◌, raise_if}
use mr_hide.Privacy.Mapping.{MappingRecord, MappingTable}

-- `[A-Z]`
unfoldable pub is_upper : ℕ → Bool
is_upper c = leb b'A' c && leb c b'Z'

-- The closing bracket that goes with an opening one of `_RESERVED_ALIAS`.
unfoldable pub closer : ℕ → Option ℕ
closer c =
    if c == b'<'
    then some b'>'
    else if c == b'['
    then some b']'
    else if c == 0x27e6
    then some 0x27e7
    else none

-- `[0-9]*` and the closing bracket; the length of a match, of which `n` characters are read
unfoldable pub match_digits : ℕ → ℕ → Text → Option ℕ
unfolding is_digit
match_digits close_mark n [] = none
match_digits close_mark n (c ∷ s) =
    let longer = match_digits close_mark (n + 1) s in
    if is_digit c then longer else if c == close_mark then some (n + 1) else none

unfoldable pub match_code : ℕ → Text → Option ℕ
unfolding is_upper is_digit match_digits
match_code close_mark (code ∷ digit ∷ s) =
    if is_upper code && is_digit digit then match_digits close_mark 3 s else none
match_code close_mark _ = none

-- the length of the match of `_RESERVED_ALIAS` at the start of a text
unfoldable pub match_alias : Text → Option ℕ
unfolding closer match_code
match_alias [] = none
match_alias (c ∷ s) = elim (closer c) [ none ↦ none | some close_mark ↦ match_code close_mark s ]

-- `_RESERVED_ALIAS.finditer(s)`, each with `group(0)`
unfoldable pub find_aliases : ℕ → Text → List Text
find_aliases skip [] = []
find_aliases (suc skip) (c ∷ s) = find_aliases skip s
find_aliases zero (c ∷ s) = elim (match_alias (c ∷ s)) [
  | none ↦ find_aliases zero s
  | some n ↦ take n (c ∷ s) ∷ find_aliases (n - 1) s
]

-- `{item.substitute: item.original for item in mappings.records}`
unfoldable pub reverse_mapping : List MappingRecord → Dict Text
reverse_mapping records = put_all [] (map (λ r. (r.substitute, r.original)) records)

-- `sorted(reverse, key=len, reverse=True)`: longer texts first, equals in their order
unfoldable pub alternatives : Dict Text → List Text
alternatives reverse = sorted (λ a b. leb (length b) (length a)) (keys reverse)

-- the alternative that matches at the start of a text
unfoldable pub match_any : List Text → Text → Option Text
match_any [] s = none
match_any (x ∷ xs) s = if is_prefix x s then some x else match_any xs s

-- `reverse[k]` for a key that the pattern has matched, so that it is there
abbrev pub or_empty : Option Text → Text
or_empty none = []
or_empty (some original) = original

abbrev pub replacement : Dict Text → Text → Text
replacement reverse k = or_empty (get k reverse)

-- `pattern.sub(lambda match: reverse[match.group(0)], s)`; no alternative is empty
unfoldable pub substitute_all : List Text → Dict Text → ℕ → Text → Text
substitute_all patterns reverse skip [] = []
substitute_all patterns reverse (suc skip) (c ∷ s) = substitute_all patterns reverse skip s
substitute_all patterns reverse zero (c ∷ s) = elim (match_any patterns (c ∷ s)) [
  | none ↦ c ∷ substitute_all patterns reverse zero s
  | some k ↦ replacement reverse k ++ substitute_all patterns reverse (length k - 1) s
]

unfoldable pub restore_records : List MappingRecord → Text → Result Text
restore_records [] s = elim (find_aliases 0 s) [
  | [] ↦ ok s
  | a ∷ rest ↦ err (privacy unknown_substitute)
]
restore_records (r ∷ records) s = do
  let reverse = reverse_mapping (r ∷ records)
  raise_if (any (λ a. not (any (text_eq a) (keys reverse))) (find_aliases 0 s))
      (privacy unknown_substitute)
  ok (substitute_all (alternatives reverse) reverse 0 s)

abbrev pub restore_text : Text → MappingTable → Result Text
restore_text s table = restore_records table.records s
