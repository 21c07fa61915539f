-- ===== src/Protocols/Messages/Requests.antt =====
-- What is left of a request by src/mr_hide/protocols/messages/json_body.py.
use mr_hide.Protocols.Walk.{Walk}
use mr_hide.Prelude.{text}
use mr_hide.Json.{Json, Fields}
use mr_hide.Json.Laws.{OthersKept}
use mr_hide.Protocols.Contract.{Meets, Callback}
use mr_hide.Protocols.Messages.Blocks.{is_messages}
use mr_hide.Protocols.Messages.Asked.{SystemReleased, ToolsReleased}

module _ {S : Type 0} (c : Callback S) where
  abbrev Done : {A : Type 0} → (A → Type 0) → Walk S A → Type 0
  Done Q w = Meets c.course is_messages Q w

  IsPrepared : Fields → Fields → Type 0
  unfolding text
  IsPrepared fs gs = SystemReleased c.Good gs × OthersKept (text "system") fs gs

  IsEquipped : Fields → Fields → Type 0
  unfolding text
  IsEquipped fs gs = ToolsReleased c.Good gs × OthersKept (text "tools") fs gs
