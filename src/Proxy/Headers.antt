-- ===== src/Proxy/Headers.antt =====
-- src/mr_hide/proxy/headers.py. Bytes are the numbers of a `Text`.
pub mod Tokens
pub mod Laws
mod Examples
use mr_hide.Prelude.{
  leb, ◌==◌, if◌then◌else◌, any, keep, Text, ℕ, ◌+◌, Bool, true, false, not, ◌&&◌, ◌||◌, List, [],
  ◌∷◌, ◌++◌, map, text, text_eq,
}
use mr_hide.Privacy.Models.{is_empty}
use mr_hide.Privacy.Normalization.{strip}

abbrev pub HeaderPair : Type 0
HeaderPair = Text × Text

-- `bytes.lower()`
unfoldable pub lower : Text → Text
lower [] = []
lower (c ∷ s) = (if leb b'A' c && leb c b'Z' then c + 32 else c) ∷ lower s

-- the whitespace of `bytes.strip()`: tab, line feed, vertical tab, form feed, carriage return, space
unfoldable pub is_blank : ℕ → Bool
is_blank c = leb 9 c && leb c 13 || c == 32

-- `value.split(b",")`: the part before the first comma, and the other parts
unfoldable pub split_commas : Text → List Text
split_commas [] = [] ∷ []
split_commas (c ∷ s) =
    let parts = split_commas s in
    if c == b','
    then [] ∷ parts
    else elim parts [ [] ↦ (c ∷ []) ∷ [] | part ∷ rest ↦ (c ∷ part) ∷ rest ]

-- `_HOP_BY_HOP`
unfoldable pub hop_by_hop : List Text
hop_by_hop =
    text "connection"
    ∷ text "keep-alive"
    ∷ text "proxy-authenticate"
    ∷ text "proxy-authorization"
    ∷ text "te"
    ∷ text "trailer"
    ∷ text "transfer-encoding"
    ∷ text "upgrade"
    ∷ []

-- the tokens of one value
unfoldable pub tokens_of : Text → List Text
tokens_of field =
    map lower (keep (λ token. not (is_empty token)) (map (strip is_blank) (split_commas field)))

-- A `frozenset` is a list: the code asks only whether it has a member.
unfoldable pub connection_tokens : List HeaderPair → List Text
connection_tokens [] = []
connection_tokens ((name, field) ∷ headers) =
    let rest = connection_tokens headers in
    if text_eq (lower name) (text "connection") then tokens_of field ++ rest else rest

-- `name in names`
abbrev pub member : Text → List Text → Bool
member name names = any (text_eq name) names

unfoldable pub excluded : Bool → List HeaderPair → List Text
excluded request headers =
    hop_by_hop ++ (connection_tokens headers ++ (if request then text "host" ∷ [] else []))

unfoldable pub filter_headers : Bool → List HeaderPair → List HeaderPair
filter_headers request headers =
    keep (λ h. not (member (lower h.0) (excluded request headers))) headers

abbrev pub filter_request_headers : List HeaderPair → List HeaderPair
filter_request_headers headers = filter_headers true headers

abbrev pub filter_response_headers : List HeaderPair → List HeaderPair
filter_response_headers headers = filter_headers false headers
