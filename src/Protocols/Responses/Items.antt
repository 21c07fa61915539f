-- ===== src/Protocols/Responses/Items.antt =====
-- The items of src/mr_hide/protocols/responses/json_body.py. An object that is changed in place is the
-- new one.
use mr_hide.Protocols.Walk.{Walk, ◌>>=◌, ◌>>◌, lift, pure, raise, each, object_or, TextTransform}
use mr_hide.Prelude.{ltb, if◌then◌else◌, length, Text, Bool, true, false, ◌&&◌, ◌||◌, [], text}
use mr_hide.Errors.{
  json_size_invalid, content_invalid, item_invalid, tool_output_invalid, tool_arguments_invalid,
  Error, responses, malformed, Result, err, ok, raise_if,
}
use mr_hide.Json.{Json, null, string, array, object, Fields, has_field, put_field, get_or_null}
use mr_hide.Policy.{ContentKind, conversation, tool_definition, tool_argument, tool_result}
use mr_hide.Protocols.Documents.{
  Dialect, BodyLibrary, max_json_bytes, object_of, string_of, is_typed, document_hooks,
  checked_document, dump,
}
use mr_hide.Protocols.Tree.{call_transform, transform_tree, required_string, optional_string}

-- `ResponsesTransformError`
abbrev pub is_responses : Error → Bool
is_responses (responses r) = true
is_responses e = false

abbrev pub dialect : Dialect
dialect = record { fail = responses; is_own = is_responses }

-- `value in {…}`, which raises `TypeError` for a list and for a dictionary
abbrev pub hashable : Json → Result Json
hashable (array vs) = err malformed
hashable (object fs) = err malformed
hashable v = ok v

abbrev pub is_null : Json → Bool
is_null null = true
is_null v = false

-- `value is not None and not isinstance(value, str)`
abbrev pub is_untyped : Json → Bool
is_untyped null = false
is_untyped (string t) = false
is_untyped v = true

abbrev pub is_empty_string : Json → Bool
is_empty_string (string []) = true
is_empty_string v = false

unfoldable pub is_text_part : Json → Bool
unfolding text
is_text_part v =
    is_typed (text "output_text") v
    || (is_typed (text "summary_text") v || is_typed (text "reasoning_text") v)

module _ {S : Type 0} (l : BodyLibrary) (transform : TextTransform S) where
  abbrev pub required : Text → ContentKind → Fields → Walk S Fields
  required key kind fs = required_string dialect transform key kind fs

  -- `_transform_optional_string`
  abbrev pub optional : Text → ContentKind → Fields → Walk S Fields
  optional key kind fs = optional_string dialect transform key kind fs

  -- `_apply` to the text under a key
  abbrev pub apply_at : Text → Text → ContentKind → Fields → Walk S Fields
  apply_at key t kind fs = do
    u ← call_transform dialect transform t kind
    pure (put_field key (string u) fs)

  -- `_transform_recursive`
  abbrev pub recursive : Bool → ContentKind → Json → Walk S Json
  recursive keys kind v = transform_tree dialect transform keys kind v

  unfoldable pub transform_inner_json_field : Text → ContentKind → Fields → Walk S Fields
  transform_inner_json_field key kind fs = do
    value ← lift (string_of (responses tool_arguments_invalid) (get_or_null key fs))
    encoded ← lift (l.encode value)
    lift (raise_if (ltb max_json_bytes (length encoded)) (responses json_size_invalid))
    inner ← lift (
        checked_document dialect tool_arguments_invalid
          (l.loads_text (document_hooks dialect) value))
    done ← recursive true kind (object inner)
    payload ← lift (dump dialect l done)
    rewritten ← lift (l.decode payload)
    pure (put_field key (string rewritten) fs)

  -- the value under the key
  unfoldable pub output_value_of : Text → ContentKind → Json → Fields → Walk S Fields
  output_value_of key kind (string t) fs = apply_at key t kind fs
  output_value_of key kind (array vs) fs = do
    done ← recursive false kind (array vs)
    pure (put_field key done fs)
  output_value_of key kind v fs = raise (responses tool_output_invalid)

  unfoldable pub transform_output_value : Text → ContentKind → Fields → Walk S Fields
  transform_output_value key kind fs = output_value_of key kind (get_or_null key fs) fs

  -- a part whose type has been looked up
  unfoldable pub part_of_type : Bool → ContentKind → Json → Fields → Walk S Fields
  unfolding text
  part_of_type has_input kind part_type part =
      if has_input && is_typed (text "input_text") part_type || is_text_part part_type
      then required (text "text") kind part
      else if is_typed (text "refusal") part_type
      then required (text "refusal") kind part
      else pure part

  -- a part of a content or of an event; the first argument says whether `input_text` is a type
  unfoldable pub transform_part : Bool → ContentKind → Fields → Walk S Fields
  unfolding text
  transform_part has_input kind part = do
    part_type ← lift (hashable (get_or_null (text "type") part))
    part_of_type has_input kind part_type part

  -- the value of `content`
  unfoldable pub content_value : ContentKind → Json → Fields → Walk S Fields
  unfolding text
  content_value kind (string t) fs = apply_at (text "content") t kind fs
  content_value kind (array parts) fs = do
    done ← each (object_or (responses content_invalid) (transform_part true kind)) parts
    pure (put_field (text "content") (array done) fs)
  content_value kind v fs = raise (responses content_invalid)

  unfoldable pub transform_content : ContentKind → Fields → Walk S Fields
  unfolding text
  transform_content kind fs = content_value kind (get_or_null (text "content") fs) fs

  -- the body of the inner loop of `_transform_reasoning`
  unfoldable pub reasoning_part : Json → Walk S Json
  unfolding text
  reasoning_part (object part) = do
    part_type ← lift (hashable (get_or_null (text "type") part))
    done ←
        (if is_typed (text "summary_text") part_type || is_typed (text "reasoning_text") part_type
          then required (text "text") conversation part
          else pure part)
    pure (object done)
  reasoning_part v = pure v

  -- the body of its outer loop
  unfoldable pub reasoning_parts : Text → Json → Fields → Walk S Fields
  reasoning_parts key null fs = pure fs
  reasoning_parts key (array parts) fs = do
    done ← each reasoning_part parts
    pure (put_field key (array done) fs)
  reasoning_parts key v fs = raise (responses content_invalid)

  unfoldable pub reasoning_field : Text → Fields → Walk S Fields
  reasoning_field key fs = reasoning_parts key (get_or_null key fs) fs

  unfoldable pub transform_reasoning : Fields → Walk S Fields
  unfolding text
  transform_reasoning fs = do
    summarised ← reasoning_field (text "summary") fs
    reasoning_field (text "content") summarised

  -- a call of a function or of a tool, with `allow_incomplete`
  unfoldable pub transform_call : Bool → Fields → Walk S Fields
  unfolding text
  transform_call incomplete fs = do
    done ←
        (if incomplete && is_empty_string (get_or_null (text "arguments") fs)
          then pure fs
          else transform_inner_json_field (text "arguments") tool_argument fs)
    optional (text "name") tool_definition done

  unfoldable pub transform_custom_call : Fields → Walk S Fields
  unfolding text
  transform_custom_call fs = do
    done ← required (text "input") tool_argument fs
    optional (text "name") tool_definition done

  -- an item whose type has been looked up
  unfoldable pub item_of_type : Bool → Json → Fields → Walk S Fields
  unfolding text
  item_of_type incomplete item_type fs =
      if (is_null item_type || is_typed (text "message") item_type) && has_field (text "content") fs
      then transform_content conversation fs
      else if is_typed (text "function_call_output") item_type
      then transform_output_value (text "output") tool_result fs
      else if is_typed (text "function_call") item_type || is_typed (text "mcp_call") item_type
      then transform_call incomplete fs
      else if is_typed (text "custom_tool_call") item_type
      then transform_custom_call fs
      else if is_typed (text "reasoning") item_type
      then transform_reasoning fs
      else if is_untyped item_type
      then raise (responses item_invalid)
      else pure fs

  -- `_transform_item`, the first argument is `allow_incomplete`
  unfoldable pub transform_item : Bool → Json → Walk S Json
  unfolding text
  transform_item incomplete value = do
    fs ← lift (object_of (responses item_invalid) value)
    item_type ← lift (hashable (get_or_null (text "type") fs))
    done ← item_of_type incomplete item_type fs
    pure (object done)
