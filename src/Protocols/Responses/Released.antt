-- ===== src/Protocols/Responses/Released.antt =====
-- What the items of a body are after src/mr_hide/protocols/responses/json_body.py: where their texts
-- stand, and what kind of content each is.
use mr_hide.Prelude.{Text, ◌≡◌, ◌⊎◌, Bool, true, false, ◌&&◌, ◌||◌, some, [], text}
use mr_hide.Errors.{malformed, err, ok}
use mr_hide.Json.{
  Json, null, string, array, object, Items, Fields, get_field, has_field, get_or_null,
}
use mr_hide.Policy.{ContentKind, conversation, tool_definition, tool_argument, tool_result}
use mr_hide.Protocols.Documents.{BodyLibrary, object_of, is_typed, dump}
use mr_hide.Protocols.Contract.{EveryItem}
use mr_hide.Protocols.Released.{TreeReleased}
use mr_hide.Protocols.Strings.{type_of, FieldReleased, OptionalReleased}
use mr_hide.Protocols.Responses.Items.{dialect, is_null, is_text_part}
use mr_hide.State.Store.{Bytes}

-- The types of a part that has a text, of a message, and of a call; and the types of the items that
-- are not messages.
unfoldable pub is_text : Bool → Json → Bool
unfolding text
is_text has_input v = has_input && is_typed (text "input_text") v || is_text_part v

unfoldable pub is_message : Json → Bool
unfolding text
is_message v = is_null v || is_typed (text "message") v

unfoldable pub is_call : Json → Bool
unfolding text
is_call v = is_typed (text "function_call") v || is_typed (text "mcp_call") v

unfoldable pub is_known : Json → Bool
unfolding text is_call
is_known v =
    is_typed (text "function_call_output") v
    || (is_call v || (is_typed (text "custom_tool_call") v || is_typed (text "reasoning") v))

module _ (l : BodyLibrary) (P : ContentKind → Text → Type 0) where
  -- A part of a content: a text, a refusal, or another part.
  pub data Part : Bool → ContentKind → Fields → Type 0 where
    text_part :
        {has_input : Bool} {kind : ContentKind} {fs : Fields}
        → is_text has_input (type_of fs) ≡ true
        → FieldReleased P (text "text") kind fs
        → Part has_input kind fs
    refusal_part :
        {has_input : Bool} {kind : ContentKind} {fs : Fields}
        → is_typed (text "refusal") (type_of fs) ≡ true
        → FieldReleased P (text "refusal") kind fs
        → Part has_input kind fs
    other_part :
        {has_input : Bool} {kind : ContentKind} {fs : Fields}
        → is_text has_input (type_of fs) ≡ false
        → is_typed (text "refusal") (type_of fs) ≡ false
        → Part has_input kind fs

  abbrev pub PartReleased : Bool → ContentKind → Json → Type 0
  PartReleased has_input kind v = (fs : Fields) × (v ≡ object fs) × Part has_input kind fs

  pub data ContentReleased : ContentKind → Json → Type 0 where
    content_text : {kind : ContentKind} {t : Text} → P kind t → ContentReleased kind (string t)
    content_parts :
        {kind : ContentKind} {vs : Items}
        → EveryItem (PartReleased true kind) vs
        → ContentReleased kind (array vs)

  -- The output of a function: a text, or a value all of whose texts are good.
  pub data OutputReleased : Json → Type 0 where
    output_text : {t : Text} → P tool_result t → OutputReleased (string t)
    output_tree : {v : Json} → TreeReleased P false tool_result v → OutputReleased v

  -- The text of an object all of whose keys and texts are good.
  abbrev pub InnerReleased : ContentKind → Text → Type 0
  InnerReleased kind t =
      (v : Json) × (payload : Bytes) × TreeReleased P true kind v
      × (dump dialect l v ≡ ok payload)
      × (l.decode payload ≡ ok t)

  -- A part of a reasoning: one of its texts, or anything else.
  abbrev pub ReasoningPart : Json → Type 0
  ReasoningPart v =
      (object_of malformed v ≡ err malformed)
      ⊎ ((fs : Fields) × (v ≡ object fs)
          × ((is_typed (text "summary_text") (type_of fs)
                  || is_typed (text "reasoning_text") (type_of fs))
                ≡ false
              ⊎ FieldReleased P (text "text") conversation fs))

  pub data ReasoningReleased : Json → Type 0 where
    no_reasoning : ReasoningReleased null
    reasoning_list : {vs : Items} → EveryItem ReasoningPart vs → ReasoningReleased (array vs)

  -- The arguments of a call: the text of such an object; the first ones of a stream can be empty.
  pub data Arguments : Bool → Fields → Type 0 where
    arguments_text :
        {incomplete : Bool} {fs : Fields} {t : Text}
        → get_field (text "arguments") fs ≡ some (string t)
        → InnerReleased tool_argument t
        → Arguments incomplete fs
    no_arguments : {fs : Fields} → get_or_null (text "arguments") fs ≡ string [] → Arguments true fs

  -- An item of each type, with what stands in it.
  pub data Item : Bool → Fields → Type 0 where
    message_item :
        {incomplete : Bool} {fs : Fields} {v : Json}
        → is_message (type_of fs) ≡ true
        → get_field (text "content") fs ≡ some v
        → ContentReleased conversation v
        → Item incomplete fs
    output_item :
        {incomplete : Bool} {fs : Fields} {v : Json}
        → is_typed (text "function_call_output") (type_of fs) ≡ true
        → get_field (text "output") fs ≡ some v
        → OutputReleased v
        → Item incomplete fs
    call_item :
        {incomplete : Bool} {fs : Fields}
        → is_call (type_of fs) ≡ true
        → Arguments incomplete fs
        → OptionalReleased P (text "name") tool_definition fs
        → Item incomplete fs
    custom_item :
        {incomplete : Bool} {fs : Fields}
        → is_typed (text "custom_tool_call") (type_of fs) ≡ true
        → FieldReleased P (text "input") tool_argument fs
        → OptionalReleased P (text "name") tool_definition fs
        → Item incomplete fs
    reasoning_item :
        {incomplete : Bool} {fs : Fields}
        → is_typed (text "reasoning") (type_of fs) ≡ true
        → ReasoningReleased (get_or_null (text "summary") fs)
        → ReasoningReleased (get_or_null (text "content") fs)
        → Item incomplete fs
    other_item :
        {incomplete : Bool} {fs : Fields}
        → (is_message (type_of fs) && has_field (text "content") fs) ≡ false
        → is_known (type_of fs) ≡ false
        → Item incomplete fs

  abbrev pub ItemReleased : Bool → Json → Type 0
  ItemReleased incomplete v = (fs : Fields) × (v ≡ object fs) × Item incomplete fs
