-- ===== src/Protocols/Messages/Blocks.antt =====
-- The blocks of content in src/mr_hide/protocols/messages/json_body.py. An object that is changed in
-- place is the new one.
use mr_hide.Protocols.Walk.{Walk, ◌>>=◌, lift, pure, raise, each, object_or, TextTransform}
use mr_hide.Prelude.{if◌then◌else◌, Text, ℕ, zero, suc, Bool, true, false, not, ◌&&◌, text, text_eq}
use mr_hide.Errors.{
  content_invalid, output_invalid, tool_input_invalid, tool_result_invalid, Error, messages,
  malformed,
}
use mr_hide.Json.{Json, null, string, array, object, Fields, has_field, put_field, get_or_null}
use mr_hide.Policy.{
  ContentKind, conversation, tool_definition, tool_argument, tool_result, tool_history,
}
use mr_hide.Protocols.Documents.{Dialect, object_of, string_of, is_typed}
use mr_hide.Protocols.Tree.{call_transform, transform_tree, required_string, optional_string}
use mr_hide.State.Store.{given}

-- `MessagesTransformError`
abbrev pub is_messages : Error → Bool
is_messages (messages r) = true
is_messages e = false

abbrev pub dialect : Dialect
dialect = record { fail = messages; is_own = is_messages }

module _ {S : Type 0} (transform : TextTransform S) where
  abbrev pub required : Text → ContentKind → Fields → Walk S Fields
  required key kind fs = required_string dialect transform key kind fs

  abbrev pub optional : Text → ContentKind → Fields → Walk S Fields
  optional key kind fs = optional_string dialect transform key kind fs

  -- `_transform_json_tree`
  abbrev pub json_tree : ContentKind → Json → Walk S Json
  json_tree kind v = transform_tree dialect transform true kind v

  -- `block["input"]`, which has to be an object, is transformed
  unfoldable pub transform_input : ContentKind → Fields → Walk S Fields
  unfolding text
  transform_input kind block = do
    given ← lift (object_of (messages tool_input_invalid) (get_or_null (text "input") block))
    tree ← json_tree kind (object given)
    pure (put_field (text "input") tree block)

  unfoldable pub tool_result_block : Fields → Walk S Fields
  unfolding text
  tool_result_block block =
      if is_typed (text "text") (get_or_null (text "type") block)
      then required (text "text") tool_result block
      else pure block

  unfoldable pub transform_tool_result : Json → Walk S Json
  transform_tool_result (string t) = do
    u ← call_transform dialect transform t tool_result
    pure (string u)
  transform_tool_result (array blocks) = do
    done ← each (object_or (messages tool_result_invalid) tool_result_block) blocks
    pure (array done)
  transform_tool_result v = raise (messages tool_result_invalid)

  -- `source["content"]` and `source["data"]` of a document
  unfoldable pub transform_source : (Json → Walk S Json) → Fields → Walk S Fields
  unfolding text
  transform_source content source =
      if is_typed (text "text") (get_or_null (text "type") source)
      then required (text "data") conversation source
      else if is_typed (text "content") (get_or_null (text "type") source)
          && has_field (text "content") source
      then (do
        done ← content (get_or_null (text "content") source)
        pure (put_field (text "content") done source))
      else pure source

  -- `source` is passed over unless it is an object
  unfoldable pub transform_source_of : (Json → Walk S Json) → Json → Fields → Walk S Fields
  unfolding text
  transform_source_of content (object source) block = do
    done ← transform_source content source
    pure (put_field (text "source") (object done) block)
  transform_source_of content v block = pure block

  unfoldable pub transform_document : (Json → Walk S Json) → Fields → Walk S Fields
  unfolding text
  transform_document content block = do
    titled ← optional (text "title") conversation block
    described ← optional (text "context") conversation titled
    transform_source_of content (get_or_null (text "source") described) described

  unfoldable pub content_unless_null : (Json → Walk S Json) → Json → Fields → Walk S Fields
  unfolding text
  content_unless_null content null block = pure block
  content_unless_null content v block = do
    done ← content v
    pure (put_field (text "content") done block)

  unfoldable pub transform_search_result : (Json → Walk S Json) → Fields → Walk S Fields
  unfolding text
  transform_search_result content block = do
    titled ← optional (text "title") conversation block
    content_unless_null content (get_or_null (text "content") titled) titled

  -- the content of a tool's result, if there is one
  unfoldable pub transform_result_content : Fields → Walk S Fields
  unfolding text
  transform_result_content block =
      if has_field (text "content") block
      then (do
        done ← transform_tool_result (get_or_null (text "content") block)
        pure (put_field (text "content") done block))
      else pure block

  unfoldable pub transform_tool_use : Fields → Walk S Fields
  unfolding text
  transform_tool_use block = do
    named ← required (text "name") tool_history block
    transform_input tool_history named

  -- a block of a type
  unfoldable pub input_block_of : (Json → Walk S Json) → Text → Fields → Walk S Fields
  unfolding text
  input_block_of content block_type block =
      if text_eq block_type (text "text")
      then required (text "text") conversation block
      else if text_eq block_type (text "tool_use")
      then transform_tool_use block
      else if text_eq block_type (text "tool_result")
      then transform_result_content block
      else if text_eq block_type (text "document")
      then transform_document content block
      else if text_eq block_type (text "search_result")
      then transform_search_result content block
      else pure block

  -- `_transform_input_block`, with what transforms the contents in it
  unfoldable pub transform_input_block : (Json → Walk S Json) → Fields → Walk S Fields
  unfolding text
  transform_input_block content block = do
    block_type ← lift (string_of (messages content_invalid) (get_or_null (text "type") block))
    input_block_of content block_type block

  -- The first number is fuel, one unit for each list of blocks around a text.
  unfoldable pub transform_content : ℕ → ContentKind → Json → Walk S Json
  transform_content n kind (string t) = do
    u ← call_transform dialect transform t kind
    pure (string u)
  transform_content zero kind (array blocks) = raise malformed
  transform_content (suc n) kind (array blocks) = do
    let inner = transform_content n conversation
    done ← each (object_or (messages content_invalid) (transform_input_block inner)) blocks
    pure (array done)
  transform_content n kind v = raise (messages content_invalid)

  -- the last argument is `allow_incomplete`
  unfoldable pub output_block_of : Text → Fields → Bool → Walk S Fields
  unfolding text
  output_block_of block_type block incomplete =
      if text_eq block_type (text "text")
      then unless_missing incomplete (text "text") conversation block
      else if text_eq block_type (text "tool_use")
      then (do
        named ← unless_missing incomplete (text "name") tool_definition block
        (if has_field (text "input") named
            then transform_input tool_argument named
            else pure named))
      else pure block
    where
      unless_missing : Bool → Text → ContentKind → Fields → Walk S Fields
      unless_missing allowed key kind fs =
          if allowed && not (has_field key fs) then pure fs else required key kind fs

  unfoldable pub transform_output_block : Bool → Fields → Walk S Fields
  unfolding text
  transform_output_block incomplete block = do
    block_type ← lift (string_of (messages output_invalid) (get_or_null (text "type") block))
    output_block_of block_type block incomplete
