-- ===== src/Protocols/Responses/JsonBody.antt =====
-- src/mr_hide/protocols/responses/json_body.py: the bodies of requests, responses and events. A
-- document that is changed in place is the new one.
use mr_hide.Protocols.Walk.{Walk, ◌>>=◌, lift, pure, raise, each, TextTransform}
use mr_hide.Prelude.{if◌then◌else◌, any, Text, Bool, true, false, ◌||◌, [], ◌∷◌, text, text_eq}
use mr_hide.Errors.{
  content_invalid, event_invalid, tools_invalid, prompt_invalid, output_invalid, error_invalid,
  responses,
}
use mr_hide.Json.{Json, null, string, array, object, Fields, put_field, get_or_null}
use mr_hide.Policy.{conversation, tool_definition, tool_argument}
use mr_hide.Protocols.Documents.{BodyLibrary, object_of, string_of, items_of, load_outer, dump}
use mr_hide.Protocols.Tree.{call_transform}
use mr_hide.Protocols.Responses.Items.{
  dialect, required, optional, recursive, transform_inner_json_field, transform_part,
  transform_item,
}
use mr_hide.State.Store.{Bytes}

module _ {S : Type 0} (l : BodyLibrary) (transform : TextTransform S) where
  -- the value of the field
  unfoldable pub text_or_items : Text → Json → Fields → Walk S Fields
  text_or_items key null document = pure document
  text_or_items key (string t) document = do
    u ← call_transform dialect transform t conversation
    pure (put_field key (string u) document)
  text_or_items key (array items) document = do
    done ← each (transform_item l transform false) items
    pure (put_field key (array done) document)
  text_or_items key v document = raise (responses content_invalid)

  unfoldable pub optional_text_or_items : Text → Fields → Walk S Fields
  optional_text_or_items key document = text_or_items key (get_or_null key document) document

  -- the body of the loop over `tools`
  unfoldable pub transform_tool : Json → Walk S Json
  transform_tool tool = do
    fs ← lift (object_of (responses tools_invalid) tool)
    recursive l transform true tool_definition (object fs)

  -- `tools`, which can be missing
  unfoldable pub transform_tools : Json → Fields → Walk S Fields
  unfolding text
  transform_tools null document = pure document
  transform_tools v document = do
    tools ← lift (items_of (responses tools_invalid) v)
    done ← each transform_tool tools
    pure (put_field (text "tools") (array done) document)

  unfoldable pub transform_variables : Json → Fields → Walk S Fields
  unfolding text
  transform_variables null prompt = pure prompt
  transform_variables v prompt = do
    done ← recursive l transform false conversation v
    pure (put_field (text "variables") done prompt)

  unfoldable pub transform_prompt : Json → Fields → Walk S Fields
  unfolding text
  transform_prompt null document = pure document
  transform_prompt v document = do
    prompt ← lift (object_of (responses prompt_invalid) v)
    done ← transform_variables (get_or_null (text "variables") prompt) prompt
    pure (put_field (text "prompt") (object done) document)

  unfoldable pub transform_request : Fields → Walk S Fields
  unfolding text
  transform_request document = do
    instructed ← optional_text_or_items (text "instructions") document
    asked ← optional_text_or_items (text "input") instructed
    equipped ← transform_tools (get_or_null (text "tools") asked) asked
    transform_prompt (get_or_null (text "prompt") equipped) equipped

  unfoldable pub transform_output : Json → Fields → Walk S Fields
  unfolding text
  transform_output null document = pure document
  transform_output v document = do
    items ← lift (items_of (responses output_invalid) v)
    done ← each (transform_item l transform false) items
    pure (put_field (text "output") (array done) document)

  unfoldable pub transform_error : Json → Fields → Walk S Fields
  unfolding text
  transform_error null document = pure document
  transform_error v document = do
    problem ← lift (object_of (responses error_invalid) v)
    done ← optional l transform (text "message") conversation problem
    pure (put_field (text "error") (object done) document)

  unfoldable pub transform_response : Fields → Walk S Fields
  unfolding text
  transform_response document = do
    instructed ← optional_text_or_items (text "instructions") document
    answered ← transform_output (get_or_null (text "output") instructed) instructed
    transform_error (get_or_null (text "error") answered) answered

  unfoldable pub transform_request_json : Bytes → Walk S Bytes
  transform_request_json payload = do
    document ← lift (load_outer dialect l payload)
    done ← transform_request document
    lift (dump dialect l (object done))

  unfoldable pub transform_response_json : Bytes → Walk S Bytes
  transform_response_json payload = do
    document ← lift (load_outer dialect l payload)
    done ← transform_response document
    lift (dump dialect l (object done))

  unfoldable pub response_event : Text → Bool
  unfolding text
  response_event t = any (text_eq t) (
      text "response.created"
      ∷ text "response.queued"
      ∷ text "response.in_progress"
      ∷ text "response.completed"
      ∷ text "response.failed"
      ∷ text "response.incomplete"
      ∷ [])

  unfoldable pub part_event : Text → Bool
  unfolding text
  part_event t = any (text_eq t) (
      text "response.content_part.added"
      ∷ text "response.content_part.done"
      ∷ text "response.reasoning_summary_part.added"
      ∷ text "response.reasoning_summary_part.done"
      ∷ [])

  -- an object under a key of an event
  abbrev part_of_event : Text → (Fields → Walk S Fields) → Fields → Walk S Fields
  part_of_event key body document = do
    part ← lift (object_of (responses event_invalid) (get_or_null key document))
    done ← body part
    pure (put_field key (object done) document)

  abbrev item_of_event : Bool → Fields → Walk S Fields
  unfolding text
  item_of_event incomplete document = do
    done ← transform_item l transform incomplete (get_or_null (text "item") document)
    pure (put_field (text "item") done document)

  unfoldable pub event_of : Text → Fields → Walk S Fields
  unfolding text
  event_of t document =
      if response_event t
      then part_of_event (text "response") transform_response document
      else if text_eq t (text "response.output_text.done")
      then required l transform (text "text") conversation document
      else if text_eq t (text "response.refusal.done")
      then required l transform (text "refusal") conversation document
      else if text_eq t (text "response.reasoning_summary_text.done")
          || text_eq t (text "response.reasoning_text.done")
      then required l transform (text "text") conversation document
      else if text_eq t (text "response.function_call_arguments.done")
          || text_eq t (text "response.mcp_call_arguments.done")
      then transform_inner_json_field l transform (text "arguments") tool_argument document
      else if text_eq t (text "response.custom_tool_call_input.done")
      then required l transform (text "input") tool_argument document
      else if text_eq t (text "error")
      then optional l transform (text "message") conversation document
      else if text_eq t (text "response.output_item.added")
      then item_of_event true document
      else if text_eq t (text "response.output_item.done")
      then item_of_event false document
      else if part_event t
      then part_of_event (text "part") (transform_part l transform false conversation) document
      else pure document

  unfoldable pub transform_event_document : Fields → Walk S Fields
  unfolding text
  transform_event_document document = do
    event_type ← lift (string_of (responses event_invalid) (get_or_null (text "type") document))
    event_of event_type document
