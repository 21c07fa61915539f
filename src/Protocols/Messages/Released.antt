-- ===== src/Protocols/Messages/Released.antt =====
-- What the blocks of content are after src/mr_hide/protocols/messages/json_body.py: where their texts
-- stand, and what kind of content each is.
use mr_hide.Prelude.{any, Text, ◌≡◌, ◌⊎◌, true, false, ◌&&◌, some, List, [], ◌∷◌, text, text_eq}
use mr_hide.Errors.{malformed, err}
use mr_hide.Json.{
  Json, null, string, array, object, Items, nil, cons, Fields, get_field, has_field, get_or_null,
}
use mr_hide.Policy.{ContentKind, conversation, tool_result, tool_history}
use mr_hide.Protocols.Documents.{object_of, is_typed}
use mr_hide.Protocols.Contract.{EveryItem}
use mr_hide.Protocols.Released.{TreeReleased}
use mr_hide.Protocols.Strings.{type_of, FieldReleased, OptionalReleased}

-- The types of the blocks that the input transformation knows.
unfoldable pub known_types : List Text
unfolding text
known_types =
    text "text" ∷ text "tool_use" ∷ text "tool_result" ∷ text "document" ∷ text "search_result" ∷ []

module _ (P : ContentKind → Text → Type 0) where
  -- A value under a key, all of whose keys and texts have the property.
  abbrev pub TreeUnder : Text → ContentKind → Fields → Type 0
  TreeUnder key kind fs = (v : Json) × (get_field key fs ≡ some v) × TreeReleased P true kind v

  -- A block of a tool's result.
  abbrev pub ResultBlock : Json → Type 0
  unfolding text
  ResultBlock v =
      (fs : Fields) × (v ≡ object fs)
      × ((is_typed (text "text") (type_of fs) ≡ false)
          ⊎ FieldReleased P (text "text") tool_result fs)

  pub data ToolResult : Json → Type 0 where
    result_text : {t : Text} → P tool_result t → ToolResult (string t)
    result_blocks : {vs : Items} → EveryItem ResultBlock vs → ToolResult (array vs)

  mutual
    pub data Content : Json → Type 0 where
      content_text : {t : Text} → P conversation t → Content (string t)
      content_blocks : {vs : Items} → Blocks vs → Content (array vs)

    pub data Blocks : Items → Type 0 where
      no_blocks : Blocks nil
      more_blocks : {fs : Fields} {vs : Items} → Block fs → Blocks vs → Blocks (cons (object fs) vs)

    -- A block of each type, with what stands in it.
    pub data Block : Fields → Type 0 where
      text_block :
          {fs : Fields}
          → type_of fs ≡ string (text "text")
          → FieldReleased P (text "text") conversation fs
          → Block fs
      tool_use_block :
          {fs : Fields}
          → type_of fs ≡ string (text "tool_use")
          → FieldReleased P (text "name") tool_history fs
          → TreeUnder (text "input") tool_history fs
          → Block fs
      empty_result_block :
          {fs : Fields}
          → type_of fs ≡ string (text "tool_result")
          → has_field (text "content") fs ≡ false
          → Block fs
      filled_result_block :
          {fs : Fields} {v : Json}
          → type_of fs ≡ string (text "tool_result")
          → get_field (text "content") fs ≡ some v
          → ToolResult v
          → Block fs
      document_block :
          {fs : Fields}
          → type_of fs ≡ string (text "document")
          → OptionalReleased P (text "title") conversation fs
          → OptionalReleased P (text "context") conversation fs
          → Source (get_or_null (text "source") fs)
          → Block fs
      search_result_block :
          {fs : Fields}
          → type_of fs ≡ string (text "search_result")
          → OptionalReleased P (text "title") conversation fs
          → ContentOrNull (get_or_null (text "content") fs)
          → Block fs
      other_block :
          {fs : Fields} {t : Text}
          → type_of fs ≡ string t
          → any (text_eq t) known_types ≡ false
          → Block fs

    pub data ContentOrNull : Json → Type 0 where
      no_content : ContentOrNull null
      some_content : {v : Json} → Content v → ContentOrNull v

    -- The source of a document.
    pub data Source : Json → Type 0 where
      no_source : {v : Json} → object_of malformed v ≡ err malformed → Source v
      text_source :
          {fs : Fields} → FieldReleased P (text "data") conversation fs → Source (object fs)
      content_source :
          {fs : Fields} {v : Json}
          → get_field (text "content") fs ≡ some v
          → Content v
          → Source (object fs)
      other_source :
          {fs : Fields}
          → is_typed (text "text") (type_of fs) ≡ false
          → (is_typed (text "content") (type_of fs) && has_field (text "content") fs) ≡ false
          → Source (object fs)
