-- ===== src/Protocols/Messages/Asked.antt =====
-- What a request is after src/mr_hide/protocols/messages/json_body.py.
use mr_hide.Prelude.{Text, ◌≡◌, ◌⊎◌, true, false, some, text}
use mr_hide.Json.{Json, array, object, Items, Fields, get_field, has_field}
use mr_hide.Policy.{ContentKind, tool_definition}
use mr_hide.Protocols.Contract.{EveryItem}
use mr_hide.Protocols.Released.{TreeReleased}
use mr_hide.Protocols.Messages.Released.{Content}

module _ (P : ContentKind → Text → Type 0) where
  -- A message, whose content is good.
  abbrev pub MessageReleased : Json → Type 0
  unfolding text
  MessageReleased v =
      (fs : Fields) × (v ≡ object fs)
      × ((w : Json) × (get_field (text "content") fs ≡ some w) × Content P w)

  abbrev pub SystemReleased : Fields → Type 0
  unfolding text
  SystemReleased fs =
      (has_field (text "system") fs ≡ false)
      ⊎ ((w : Json) × (get_field (text "system") fs ≡ some w) × Content P w)

  abbrev pub MessagesReleased : Fields → Type 0
  unfolding text
  MessagesReleased fs =
      (vs : Items) × (get_field (text "messages") fs ≡ some (array vs))
      × EveryItem MessageReleased vs

  abbrev pub ToolsReleased : Fields → Type 0
  unfolding text
  ToolsReleased fs =
      (has_field (text "tools") fs ≡ false)
      ⊎ ((vs : Items) × (get_field (text "tools") fs ≡ some (array vs))
          × EveryItem (TreeReleased P true tool_definition) vs)

  -- The system prompt, every message and every definition of a tool are good.
  abbrev pub RequestReleased : Fields → Type 0
  RequestReleased fs = SystemReleased fs × MessagesReleased fs × ToolsReleased fs
