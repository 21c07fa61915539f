-- ===== src/Protocols/Messages/JsonBody.antt =====
-- src/mr_hide/protocols/messages/json_body.py: the bodies of requests, responses and events. A document
-- that is changed in place is the new one.
use mr_hide.Protocols.Walk.{Walk, ◌>>=◌, ◌>>◌, lift, pure, each, object_or, TextTransform}
use mr_hide.Prelude.{if◌then◌else◌, Text, ◌+◌, true, false, not, text, text_eq}
use mr_hide.Errors.{
  event_invalid, tools_invalid, output_invalid, error_invalid, input_invalid, sse_json_invalid,
  Error, messages, Result, err, ok, raise_if,
}
use mr_hide.Json.{Json, null, array, object, Items, cons, Fields, has_field, put_field, get_or_null}
use mr_hide.Policy.{conversation, tool_definition}
use mr_hide.Protocols.Documents.{
  BodyLibrary, max_json_depth, object_of, string_of, items_of, document_hooks, checked_document,
  load_outer, dump,
}
use mr_hide.State.Store.{Bytes}
use mr_hide.Protocols.Messages.Blocks.{
  dialect, optional, json_tree, transform_content, transform_output_block,
}

unfoldable pub load_event_json : BodyLibrary → Bytes → Result Fields
load_event_json l payload =
    checked_document dialect sse_json_invalid (l.json.loads (document_hooks dialect) payload)

-- a list that is not empty
unfoldable pub messages_of : Json → Result Items
messages_of (array (cons v vs)) = ok (cons v vs)
messages_of v = err (messages input_invalid)

module _ {S : Type 0} (transform : TextTransform S) where
  -- the content of a value of a body, which has the depth of a body at most
  abbrev content_of : Json → Walk S Json
  content_of v = transform_content transform (max_json_depth + 1) conversation v

  unfoldable pub transform_system : Fields → Walk S Fields
  unfolding text
  transform_system document =
      if has_field (text "system") document
      then (do
        done ← content_of (get_or_null (text "system") document)
        pure (put_field (text "system") done document))
      else pure document

  -- the body of the loop over `messages`
  unfoldable pub transform_message : Fields → Walk S Fields
  unfolding text
  transform_message message = do
    role ← lift (string_of (messages input_invalid) (get_or_null (text "role") message))
    lift (raise_if (not (has_field (text "content") message)) (messages input_invalid))
    done ← content_of (get_or_null (text "content") message)
    pure (put_field (text "content") done message)

  -- the body of the loop over `tools`
  unfoldable pub transform_tool : Json → Walk S Json
  transform_tool tool = do
    fs ← lift (object_of (messages tools_invalid) tool)
    json_tree transform tool_definition (object fs)

  unfoldable pub transform_tools : Fields → Walk S Fields
  unfolding text
  transform_tools document =
      if has_field (text "tools") document
      then (do
        tools ← lift (items_of (messages tools_invalid) (get_or_null (text "tools") document))
        done ← each transform_tool tools
        pure (put_field (text "tools") (array done) document))
      else pure document

  unfoldable pub transform_request : Fields → Walk S Fields
  unfolding text
  transform_request document = do
    prepared ← transform_system document
    listed ← lift (messages_of (get_or_null (text "messages") prepared))
    done ← each (object_or (messages input_invalid) transform_message) listed
    transform_tools (put_field (text "messages") (array done) prepared)

  unfoldable pub transform_output : Fields → Walk S Fields
  unfolding text
  transform_output document =
      if has_field (text "content") document
      then (do
        blocks ← lift (items_of (messages output_invalid) (get_or_null (text "content") document))
        done ←
            each (object_or (messages output_invalid) (transform_output_block transform false))
              blocks
        pure (put_field (text "content") (array done) document))
      else pure document

  -- the message of an error that is an object, under the key; `None` is passed over
  unfoldable pub transform_error : Error → Json → Fields → Walk S Fields
  unfolding text
  transform_error e null document = pure document
  transform_error e v document = do
    problem ← lift (object_of e v)
    done ← optional transform (text "message") conversation problem
    pure (put_field (text "error") (object done) document)

  unfoldable pub transform_response : Fields → Walk S Fields
  unfolding text
  transform_response document = do
    prepared ← transform_output document
    transform_error (messages error_invalid) (get_or_null (text "error") prepared) prepared

  unfoldable pub transform_request_json : BodyLibrary → Bytes → Walk S Bytes
  transform_request_json l payload = do
    document ← lift (load_outer dialect l payload)
    done ← transform_request document
    lift (dump dialect l (object done))

  unfoldable pub transform_response_json : BodyLibrary → Bytes → Walk S Bytes
  transform_response_json l payload = do
    document ← lift (load_outer dialect l payload)
    done ← transform_response document
    lift (dump dialect l (object done))

  -- an object under a key of an event
  abbrev part_of_event : Text → (Fields → Walk S Fields) → Fields → Walk S Fields
  part_of_event key body document = do
    part ← lift (object_of (messages event_invalid) (get_or_null key document))
    done ← body part
    pure (put_field key (object done) document)

  unfoldable pub event_of : Text → Fields → Walk S Fields
  unfolding text
  event_of event_type document =
      if text_eq event_type (text "message_start")
      then part_of_event (text "message") transform_response document
      else if text_eq event_type (text "content_block_start")
      then part_of_event (text "content_block") (transform_output_block transform true) document
      else if text_eq event_type (text "error")
      then part_of_event (text "error") (optional transform (text "message") conversation) document
      else pure document

  unfoldable pub transform_event_document : Fields → Walk S Fields
  unfolding text
  transform_event_document document = do
    event_type ← lift (string_of (messages event_invalid) (get_or_null (text "type") document))
    event_of event_type document
