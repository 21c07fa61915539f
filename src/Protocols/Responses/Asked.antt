-- ===== src/Protocols/Responses/Asked.antt =====
-- What a request is after src/mr_hide/protocols/responses/json_body.py.
use mr_hide.Prelude.{Text, ◌≡◌, refl, sym, subst, true, false, text, text_eq}
use mr_hide.Json.{Json, null, string, array, object, Items, Fields, put_field, get_or_null}
use mr_hide.Json.Laws.{OthersKept, put_field-OthersKept, get_or_null-kept, get_or_null-put}
use mr_hide.Policy.{ContentKind, conversation, tool_definition}
use mr_hide.Protocols.Documents.{BodyLibrary}
use mr_hide.Protocols.Contract.{EveryItem}
use mr_hide.Protocols.Released.{TreeReleased}
use mr_hide.Protocols.Responses.Released.{ItemReleased}

module _ (l : BodyLibrary) (P : ContentKind → Text → Type 0) where
  -- Nothing, a text, or a list of items.
  pub data TextOrItems : Json → Type 0 where
    nothing : TextOrItems null
    one_text : {t : Text} → P conversation t → TextOrItems (string t)
    some_items : {vs : Items} → EveryItem (ItemReleased l P false) vs → TextOrItems (array vs)

  -- The definitions of tools.
  pub data Tools : Json → Type 0 where
    no_tools : Tools null
    some_tools :
        {vs : Items} → EveryItem (TreeReleased P true tool_definition) vs → Tools (array vs)

  -- A prompt, whose variables are good.
  pub data Prompt : Json → Type 0 where
    no_prompt : Prompt null
    a_prompt :
        {fs : Fields}
        → TreeReleased P false conversation (get_or_null (text "variables") fs)
        → Prompt (object fs)

  -- The instructions, the input, the tools and the prompt are good.
  abbrev pub RequestReleased : Fields → Type 0
  unfolding text
  RequestReleased fs =
      TextOrItems (get_or_null (text "instructions") fs)
      × TextOrItems (get_or_null (text "input") fs)
      × Tools (get_or_null (text "tools") fs)
      × Prompt (get_or_null (text "prompt") fs)

-- What stands under a key has the property, and the other keys are as they were.
abbrev pub IsHeld : Text → (Json → Type 0) → Fields → Fields → Type 0
IsHeld key Q fs gs = Q (get_or_null key gs) × OthersKept key fs gs

pub IsHeld-put :
    (key : Text) (Q : Json → Type 0) (v : Json) (fs : Fields)
    → Q v
    → IsHeld key Q fs (put_field key v fs)
IsHeld-put key Q v fs good = (
  subst Q (sym (get_or_null-put key v fs)) good,
  put_field-OthersKept key v fs (put_field key v fs) refl,
)

pub IsHeld-same :
    (key : Text) (Q : Json → Type 0) (v : Json) (fs : Fields)
    → get_or_null key fs ≡ v
    → Q v
    → IsHeld key Q fs fs
IsHeld-same key Q v fs e good = (subst Q (sym e) good, λ j other. refl)

pub IsHeld-kept :
    (k key : Text) (Q : Json → Type 0) (fs gs : Fields)
    → text_eq k key ≡ false
    → OthersKept k fs gs
    → Q (get_or_null key fs)
    → Q (get_or_null key gs)
IsHeld-kept k key Q fs gs other kept good =
    subst Q (sym (get_or_null-kept k key fs gs other kept)) good
