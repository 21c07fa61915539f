-- ===== src/Json.antt =====
-- JSON values, as Python's `json` reads and writes them, and what the program uses of that library.
-- An object is its pairs, in their order.
pub mod Laws
pub mod Postfix
use mr_hide.Prelude.{
  if◌then◌else◌, Text, ℕ, Bool, true, false, not, ◌&&◌, ◌||◌, Option, none, some, List, [], ◌∷◌,
  text_le, text_eq,
}
use mr_hide.Errors.{Error, Result, err, ok, ◌>>=◌, ◌>>◌}

mutual
  pub data Json : Type 0 where
    null : Json
    boolean : Bool → Json
    -- an integer that is not negative; -(n + 1); any other number, by its text
    int : ℕ → Json
    negative : ℕ → Json
    float : Text → Json
    string : Text → Json
    array : Items → Json
    object : Fields → Json

  pub data Items : Type 0 where
    nil : Items
    cons : Json → Items → Items

  pub data Fields : Type 0 where
    end : Fields
    field : Text → Json → Fields → Fields

-- `document.get(key)`, with `none` for a missing key
unfoldable pub get_field : Text → Fields → Option Json
get_field k end = none
get_field k (field j v fs) = if text_eq j k then some v else get_field k fs

-- `key in document`
abbrev pub has_field : Text → Fields → Bool
has_field k end = false
has_field k (field j v fs) = text_eq j k || has_field k fs

-- `document[key] = value`
unfoldable pub put_field : Text → Json → Fields → Fields
put_field k v end = field k v end
put_field k v (field j w fs) = if text_eq j k then field j v fs else field j w (put_field k v fs)

-- `document.get(key)`, where a missing key is `None`
abbrev pub get_or_null : Text → Fields → Json
get_or_null k fs = elim (get_field k fs) [ none ↦ null | some v ↦ v ]

-- whether the keys are those of a set, each once
unfoldable pub field_keys : Fields → List Text
field_keys end = []
field_keys (field k v fs) = k ∷ field_keys fs

abbrev pub to_items : List Json → Items
to_items [] = nil
to_items (v ∷ vs) = cons v (to_items vs)

-- the body of a hook for objects that rejects a key that is there already
unfoldable pub unique_onto : Error → Fields → Fields → Result Fields
unique_onto e seen end = ok seen
unique_onto e seen (field k v fs) =
    let rest = unique_onto e (put_field k v seen) fs in if has_field k seen then err e else rest

-- What `json.loads` calls for the pairs of an object and for `NaN` and the infinities.
pub record Hooks : Type 0 where
  pub on_object : Fields → Result Json
  pub on_constant : Text → Result Json

-- The hooks called on the parts of a value before they are called on the value.
unfoldable mutual
  pub hooked : Hooks → Json → Result Json
  hooked h (array xs) = do ys ← hooked_items h xs; ok (array ys)
  hooked h (object fs) = do gs ← hooked_fields h fs; h.on_object gs
  hooked h null = ok null
  hooked h (boolean b) = ok (boolean b)
  hooked h (int n) = ok (int n)
  hooked h (negative n) = ok (negative n)
  hooked h (float t) = ok (float t)
  hooked h (string t) = ok (string t)

  pub hooked_items : Hooks → Items → Result Items
  hooked_items h nil = ok nil
  hooked_items h (cons v xs) = do w ← hooked h v; ys ← hooked_items h xs; ok (cons w ys)

  pub hooked_fields : Hooks → Fields → Result Fields
  hooked_fields h end = ok end
  hooked_fields h (field k v fs) = do w ← hooked h v; gs ← hooked_fields h fs; ok (field k w gs)

abbrev insert_field : Text → Json → Fields → Fields
insert_field k v end = field k v end
insert_field k v (field j w fs) =
    if text_le k j then field k v (field j w fs) else field j w (insert_field k v fs)

-- The order in which `json.dumps` writes with `sort_keys=True`.
unfoldable mutual
  pub sort_keys : Json → Json
  sort_keys (array xs) = array (sort_items xs)
  sort_keys (object fs) = object (sort_fields fs)
  sort_keys null = null
  sort_keys (boolean b) = boolean b
  sort_keys (int n) = int n
  sort_keys (negative n) = negative n
  sort_keys (float t) = float t
  sort_keys (string t) = string t

  pub sort_items : Items → Items
  sort_items nil = nil
  sort_items (cons v xs) = cons (sort_keys v) (sort_items xs)

  pub sort_fields : Fields → Fields
  sort_fields end = end
  sort_fields (field k v fs) = insert_field k (sort_keys v) (sort_fields fs)

-- What the program calls of Python's `json`: `loads` with hooks, and the bytes that `dumps` gives
-- without blanks and without escapes, in the order of the keys or sorted. A text that is no JSON,
-- or is nested too deeply, and a value that cannot be written are `malformed`; `loads` raises another
-- exception for a number of too many digits.
pub record JsonLibrary : Type 0 where
  pub loads : Hooks → Text → Result Json
  pub dumps : Json → Result Text
  pub dumps_sorted : Json → Result Text

-- No object has a key twice.
unfoldable mutual
  pub has_unique_keys : Json → Bool
  has_unique_keys (array xs) = items_have_unique_keys xs
  has_unique_keys (object fs) = fields_have_unique_keys fs
  has_unique_keys _ = true

  pub items_have_unique_keys : Items → Bool
  items_have_unique_keys nil = true
  items_have_unique_keys (cons v xs) = has_unique_keys v && items_have_unique_keys xs

  pub fields_have_unique_keys : Fields → Bool
  fields_have_unique_keys end = true
  fields_have_unique_keys (field k v fs) =
      not (has_field k fs) && (has_unique_keys v && fields_have_unique_keys fs)
