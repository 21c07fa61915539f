-- ===== src/State/Leaves.antt =====
-- The values in the documents of src/mr_hide/state/codec.py, and `derive_conversation_key` of
-- src/mr_hide/state/keys.py. What the codec calls of Python and of the package `cryptography` is a
-- `CodecLibrary`.
use mr_hide.Prelude.{
  ◌==◌, if◌then◌else◌, length, any, all, Text, ℕ, zero, suc, ◌-◌, ◌*◌, Bool, false, ◌&&◌, Option,
  none, some, List, [], ◌∷◌, ◌++◌, text, text_eq, is_prefix,
}
use mr_hide.Json.{
  Json, boolean, int, negative, float, string, object, Fields, end, get_field, has_field,
  field_keys, unique_onto, Hooks, JsonLibrary,
}
use mr_hide.Errors.{
  Reason, vault_document_duplicate_key, vault_state_invalid, master_key_invalid, vault, malformed,
  builtin, Result, err, ok, ◌>>=◌,
}
use mr_hide.Policy.{SubstitutionMode, alias, compatibility}
use mr_hide.Privacy.Unicode.{Unicode}
use mr_hide.State.Models.{Moment, UuidLibrary, schema_version_number}
use mr_hide.State.Store.{Bytes}

-- What the codec calls. Reading and opening raise `malformed`.
pub record CodecLibrary : Type 0 where
  pub json : JsonLibrary
  pub uuids : UuidLibrary
  pub unicode : Unicode
  -- `HKDF(…).derive`, of the master key and the conversation's identifier
  pub derive : Bytes → ℕ → Bytes
  -- `AESGCM(key).encrypt` and `AESGCM(key).decrypt`: the key, the nonce, the data and what is
  -- authenticated with them
  pub seal : Bytes → Bytes → Bytes → Bytes → Result Bytes
  pub unseal : Bytes → Bytes → Bytes → Bytes → Result Bytes
  -- `urlsafe_b64encode` and `b64decode`
  pub b64_encode : Bytes → Text
  pub b64_decode : Text → Result Bytes
  -- of an instant in UTC, and of a text
  pub isoformat : ℕ → Text
  pub from_isoformat : Text → Result Moment
  -- whether a float that JSON writes equals a number
  pub float_equals : Text → ℕ → Bool

abbrev pub nonce_bytes : ℕ
nonce_bytes = 12

abbrev pub max_envelope_bytes : ℕ
max_envelope_bytes = 32 * 1024 * 1024

abbrev pub master_key_bytes : ℕ
master_key_bytes = 32

unfoldable pub outer_keys : List Text
unfolding text
outer_keys = text "schema_version" ∷ text "conversation_id" ∷ text "nonce" ∷ text "ciphertext" ∷ []

unfoldable pub state_keys : List Text
unfolding text
state_keys =
    text "schema_version"
    ∷ text "conversation_id"
    ∷ text "revision"
    ∷ text "created_at"
    ∷ text "last_activity"
    ∷ text "mode"
    ∷ text "bypassed"
    ∷ text "mappings"
    ∷ []

unfoldable pub mapping_keys : List Text
unfolding text
mapping_keys =
    text "entity_type" ∷ text "normalized" ∷ text "original" ∷ text "substitute" ∷ text "mode" ∷ []

-- `t.replace(old, new)`, of the text behind the first characters, for a text `old` that is not empty
unfoldable pub replace_text : Text → Text → ℕ → Text → Text
replace_text old new k [] = []
replace_text old new (suc k) (c ∷ t) = replace_text old new k t
replace_text old new zero (c ∷ t) =
    let found = is_prefix old (c ∷ t) in
    let rest = replace_text old new (if found then length old - 1 else 0) t in
    if found then new ++ rest else c ∷ rest

-- `set(document) == keys`
abbrev pub has_keys : List Text → Fields → Bool
has_keys keys fs = all (λ k. has_field k fs) keys && all (λ k. any (text_eq k) keys) (field_keys fs)

-- what `except VaultError: raise` and `except …: raise VaultError(reason)` behind it do
abbrev pub as_vault {ℓ} : {A : Type ℓ} → Reason → Result A → Result A
as_vault reason (ok a) = ok a
as_vault reason (err (vault r)) = err (vault r)
as_vault reason (err e) = err (vault reason)

-- `except (…): raise VaultError(reason)` behind a call: what it names is `malformed`, and other
-- exceptions pass
abbrev pub unless_malformed {ℓ} : {A : Type ℓ} → Reason → Result A → Result A
unless_malformed reason (ok a) = ok a
unless_malformed reason (err malformed) = err (vault reason)
unless_malformed reason (err e) = err e

unfoldable pub mode_value : SubstitutionMode → Text
unfolding text
mode_value alias = text "alias"
mode_value compatibility = text "compatibility"

-- `SubstitutionMode(value)`
unfoldable pub parse_mode : Json → Result SubstitutionMode
unfolding mode_value
parse_mode (string t) =
    if text_eq t (mode_value alias)
    then ok alias
    else (if text_eq t (mode_value compatibility) then ok compatibility else err malformed)
parse_mode _ = err malformed

unfoldable pub derive_conversation_key : CodecLibrary → Bytes → ℕ → Result Bytes
derive_conversation_key l master_key conversation_id =
    if length master_key == master_key_bytes
    then ok (l.derive master_key conversation_id)
    else err (vault master_key_invalid)

-- `document[key]`, which raises `KeyError`
abbrev pub required : Text → Fields → Result Json
required k fs = elim (get_field k fs) [ none ↦ err builtin | some v ↦ ok v ]

-- `none` for an integer below 0
unfoldable pub required_int : Json → Result (Option ℕ)
required_int (int n) = ok (some n)
required_int (negative n) = ok none
required_int _ = err (vault vault_state_invalid)

unfoldable pub required_bool : Json → Result Bool
required_bool (boolean b) = ok b
required_bool _ = err (vault vault_state_invalid)

unfoldable pub aad : CodecLibrary → ℕ → Bytes
unfolding text
aad l n = text "mr-hide:v1:" ++ l.uuids.write n

unfoldable pub canonical_json : CodecLibrary → Json → Result Bytes
canonical_json l document = unless_malformed vault_state_invalid (l.json.dumps_sorted document)

-- `object_pairs_hook=_unique_object`
unfoldable pub unique_hooks : Hooks
unique_hooks = record {
  on_object =
      λ pairs. (do fs ← unique_onto (vault vault_document_duplicate_key) end pairs; ok (object fs));
  on_constant = λ t. ok (float t);
}

-- an object with exactly these keys
unfoldable pub require_keys : List Text → Reason → Json → Result Fields
require_keys keys reason (object fs) = if has_keys keys fs then ok fs else err (vault reason)
require_keys keys reason _ = err (vault reason)

unfoldable pub load_object : CodecLibrary → Bytes → List Text → Reason → Result Fields
load_object l payload keys reason = do
  document ← unless_malformed reason (l.json.loads unique_hooks payload)
  require_keys keys reason document

unfoldable pub decode_field : CodecLibrary → Json → Reason → Result Bytes
decode_field l (string t) reason = unless_malformed reason (l.b64_decode t)
decode_field l _ reason = err (vault reason)

unfoldable pub timestamp : CodecLibrary → ℕ → Text
unfolding text
timestamp l instant = replace_text (text "+00:00") (text "Z") 0 (l.isoformat instant)

unfoldable pub required_timestamp : CodecLibrary → Json → Result Moment
unfolding text
required_timestamp l (string t) =
    unless_malformed vault_state_invalid
      (l.from_isoformat (replace_text (text "Z") (text "+00:00") 0 t))
required_timestamp l _ = err (vault vault_state_invalid)

-- `value == SCHEMA_VERSION`, as Python compares: `True` and `1.0` equal 1
abbrev pub equals_version : CodecLibrary → Json → Bool
equals_version l (int n) = n == schema_version_number
equals_version l (boolean b) = b
equals_version l (float t) = l.float_equals t schema_version_number
equals_version l _ = false

-- `value == str(conversation_id)`
abbrev pub equals_id : CodecLibrary → ℕ → Json → Bool
equals_id l n (string t) = text_eq t (l.uuids.write n)
equals_id l n _ = false
