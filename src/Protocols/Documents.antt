-- ===== src/Protocols/Documents.antt =====
-- What src/mr_hide/protocols/responses/json_body.py and src/mr_hide/protocols/messages/json_body.py
-- have in common: reading and writing a body, its depth, and the transformation of its texts. A
-- `Dialect` is the module's own exception.
use mr_hide.Prelude.{
  ltb, ◌==◌, if◌then◌else◌, length, Text, ℕ, ◌+◌, ◌*◌, Bool, false, ◌||◌, text_eq,
}
use mr_hide.Errors.{
  Reason, json_size_invalid, json_invalid, json_duplicate_key, json_too_deep, text_transform_failed,
  Error, malformed, Result, err, ok, ◌>>=◌, ◌>>◌, raise_if,
}
use mr_hide.Json.{
  Json, string, array, object, Items, nil, cons, Fields, end, field, unique_onto, Hooks,
  JsonLibrary,
}
use mr_hide.State.Store.{Bytes}

pub record Dialect : Type 0 where
  pub fail : Reason → Error
  -- whether an exception is the module's own
  pub is_own : Error → Bool

-- What the modules call of Python: `json`, `json.loads` of a text, and UTF-8.
pub record BodyLibrary : Type 0 where
  pub json : JsonLibrary
  pub loads_text : Hooks → Text → Result Json
  pub encode : Text → Result Bytes
  pub decode : Bytes → Result Text

abbrev pub max_json_bytes : ℕ
max_json_bytes = 16 * 1024 * 1024

abbrev pub max_json_depth : ℕ
max_json_depth = 64

-- `except (…): raise …Error(reason)` behind reading or writing: what it names is `malformed`, and
-- any other exception passes
abbrev pub malformed_as {ℓ} : {A : Type ℓ} → Error → Result A → Result A
malformed_as e (ok a) = ok a
malformed_as e (err malformed) = err e
malformed_as e (err problem) = err problem

abbrev pub object_of : Error → Json → Result Fields
object_of e (object fs) = ok fs
object_of e v = err e

abbrev pub string_of : Error → Json → Result Text
string_of e (string t) = ok t
string_of e v = err e

abbrev pub items_of : Error → Json → Result Items
items_of e (array vs) = ok vs
items_of e v = err e

-- `value == name`
unfoldable pub is_typed : Text → Json → Bool
is_typed name (string t) = text_eq t name
is_typed name v = false

module _ (d : Dialect) where
  unfoldable pub document_hooks : Hooks
  document_hooks = record {
    on_object =
        λ pairs. (do fs ← unique_onto (d.fail json_duplicate_key) end pairs; ok (object fs));
    on_constant = λ t. err (d.fail json_invalid);
  }

  unfoldable mutual
    pub validate_depth : Json → ℕ → Result (Unit {0})
    validate_depth (array vs) depth = do
      raise_if (ltb max_json_depth depth) (d.fail json_too_deep)
      validate_items vs (depth + 1)
    validate_depth (object fs) depth = do
      raise_if (ltb max_json_depth depth) (d.fail json_too_deep)
      validate_fields fs (depth + 1)
    validate_depth v depth = raise_if (ltb max_json_depth depth) (d.fail json_too_deep)

    pub validate_items : Items → ℕ → Result (Unit {0})
    validate_items nil depth = ok tt
    validate_items (cons v vs) depth = do validate_depth v depth; validate_items vs depth

    pub validate_fields : Fields → ℕ → Result (Unit {0})
    validate_fields end depth = ok tt
    validate_fields (field k v fs) depth = do validate_depth v depth; validate_fields fs depth

  -- an object that is not too deep, of what was read
  unfoldable pub checked_document : Reason → Result Json → Result Fields
  checked_document reason read = do
    value ← malformed_as (d.fail reason) read
    document ← object_of (d.fail reason) value
    validate_depth (object document) 0
    ok document

  unfoldable pub load_outer : BodyLibrary → Bytes → Result Fields
  load_outer l payload = do
    raise_if (length payload == 0 || ltb max_json_bytes (length payload)) (d.fail json_size_invalid)
    checked_document json_invalid (l.json.loads document_hooks payload)

  unfoldable pub dump : BodyLibrary → Json → Result Bytes
  dump l document = do
    payload ← malformed_as (d.fail json_invalid) (l.json.dumps document)
    raise_if (ltb max_json_bytes (length payload)) (d.fail json_size_invalid)
    ok payload

  -- `except …Error: raise` and `except Exception` behind it
  unfoldable pub as_own : Result Text → Result Text
  as_own (ok t) = ok t
  as_own (err e) = if d.is_own e then err e else err (d.fail text_transform_failed)
