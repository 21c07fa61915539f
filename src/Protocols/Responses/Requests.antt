-- ===== src/Protocols/Responses/Requests.antt =====
-- What is left of a request by src/mr_hide/protocols/responses/json_body.py.
use mr_hide.Protocols.Walk.{◌>>=◌, lift, pure, each}
use mr_hide.Prelude.{Text, ◌≡◌, refl, true, false, text, text_eq}
use mr_hide.Errors.{content_invalid, tools_invalid, prompt_invalid, responses}
use mr_hide.Errors.Raises.{Ends, any_error}
use mr_hide.Json.{
  Json, null, boolean, int, negative, float, string, array, object, Fields, put_field, get_or_null,
}
use mr_hide.Policy.{conversation, tool_definition}
use mr_hide.Protocols.Documents.{BodyLibrary, object_of, items_of}
use mr_hide.Protocols.Contract.{EveryItem, Callback}
use mr_hide.Protocols.Tree.{call_transform}
use mr_hide.Protocols.Released.{TreeReleased}
use mr_hide.Protocols.Responses.Items.{dialect, recursive, transform_item}
use mr_hide.Protocols.Responses.Released.{ItemReleased}
use mr_hide.Protocols.Responses.Rules.{
  Done, bind, weaken, give, refuse, fetch, call-Meets, tree-Meets, loop,
}
use mr_hide.Protocols.Responses.Kinds.{transform_item-Meets}
use mr_hide.Protocols.Responses.JsonBody.{
  text_or_items, optional_text_or_items, transform_tool, transform_tools, transform_variables,
  transform_prompt, transform_request,
}
use mr_hide.Protocols.Responses.Asked.{
  TextOrItems, nothing, one_text, some_items, Tools, no_tools, some_tools, Prompt, no_prompt,
  a_prompt, RequestReleased, IsHeld, IsHeld-put, IsHeld-same, IsHeld-kept,
}

module _ {S : Type 0} (c : Callback S) (l : BodyLibrary) where
  text_or_items-Meets :
      (key : Text) (v : Json) (fs : Fields)
      → get_or_null key fs ≡ v
      → Done c (IsHeld key (TextOrItems l c.Good) fs) (text_or_items l c.transform key v fs)
  unfolding text_or_items
  text_or_items-Meets key null fs e =
      give c (IsHeld key (TextOrItems l c.Good) fs) fs
        (IsHeld-same key (TextOrItems l c.Good) null fs e nothing)
  text_or_items-Meets key (string t) fs e =
      bind c (c.Good conversation) (IsHeld key (TextOrItems l c.Good) fs)
        (call_transform dialect c.transform t conversation) _ (call-Meets c t conversation)
        (λ u good.
          give c (IsHeld key (TextOrItems l c.Good) fs) (put_field key (string u) fs)
            (IsHeld-put key (TextOrItems l c.Good) (string u) fs (one_text good)))
  text_or_items-Meets key (array vs) fs e =
      bind c (EveryItem (ItemReleased l c.Good false)) (IsHeld key (TextOrItems l c.Good) fs)
        (each (transform_item l c.transform false) vs) _
        (loop c (ItemReleased l c.Good false) (transform_item l c.transform false) vs
          (transform_item-Meets c l false))
        (λ ws good.
          give c (IsHeld key (TextOrItems l c.Good) fs) (put_field key (array ws) fs)
            (IsHeld-put key (TextOrItems l c.Good) (array ws) fs (some_items good)))
  text_or_items-Meets key (boolean b) fs e =
      refuse c (IsHeld key (TextOrItems l c.Good) fs) (responses content_invalid)
  text_or_items-Meets key (int n) fs e =
      refuse c (IsHeld key (TextOrItems l c.Good) fs) (responses content_invalid)
  text_or_items-Meets key (negative n) fs e =
      refuse c (IsHeld key (TextOrItems l c.Good) fs) (responses content_invalid)
  text_or_items-Meets key (float t) fs e =
      refuse c (IsHeld key (TextOrItems l c.Good) fs) (responses content_invalid)
  text_or_items-Meets key (object gs) fs e =
      refuse c (IsHeld key (TextOrItems l c.Good) fs) (responses content_invalid)

  pub optional_text_or_items-Meets :
      (key : Text) (fs : Fields)
      → Done c (IsHeld key (TextOrItems l c.Good) fs) (optional_text_or_items l c.transform key fs)
  unfolding optional_text_or_items
  optional_text_or_items-Meets key fs = text_or_items-Meets key (get_or_null key fs) fs refl

  transform_tool-Meets :
      (v : Json)
      → Done c (TreeReleased c.Good true tool_definition) (transform_tool l c.transform v)
  unfolding transform_tool
  transform_tool-Meets v =
      bind c _ (TreeReleased c.Good true tool_definition)
        (lift (object_of (responses tools_invalid) v)) _
        (fetch c (object_of (responses tools_invalid) v))
        (λ fs _. tree-Meets c l true tool_definition (object fs))

  abbrev IsEquipped : Fields → Fields → Type 0
  unfolding text
  IsEquipped fs gs = IsHeld (text "tools") (Tools l c.Good) fs gs

  some_tools-Meets :
      (v : Json) (fs : Fields)
      → Done c (IsEquipped fs) (
          lift (items_of (responses tools_invalid) v) >>= λ tools.
          each (transform_tool l c.transform) tools >>= λ done.
          pure (put_field (text "tools") (array done) fs))
  unfolding IsEquipped text
  some_tools-Meets v fs =
      bind c _ (IsEquipped fs) (lift (items_of (responses tools_invalid) v)) _
        (fetch c (items_of (responses tools_invalid) v))
        (λ vs _.
          bind c (EveryItem (TreeReleased c.Good true tool_definition)) (IsEquipped fs)
            (each (transform_tool l c.transform) vs) _
            (loop c (TreeReleased c.Good true tool_definition) (transform_tool l c.transform) vs
              transform_tool-Meets)
            (λ ws good.
              give c (IsEquipped fs) (put_field (text "tools") (array ws) fs)
                (IsHeld-put (text "tools") (Tools l c.Good) (array ws) fs (some_tools good))))

  transform_tools-Meets :
      (v : Json) (fs : Fields)
      → get_or_null (text "tools") fs ≡ v
      → Done c (IsEquipped fs) (transform_tools l c.transform v fs)
  unfolding transform_tools text IsEquipped
  transform_tools-Meets null fs e =
      give c (IsEquipped fs) fs (IsHeld-same (text "tools") (Tools l c.Good) null fs e no_tools)
  transform_tools-Meets (boolean b) fs e = some_tools-Meets (boolean b) fs
  transform_tools-Meets (int n) fs e = some_tools-Meets (int n) fs
  transform_tools-Meets (negative n) fs e = some_tools-Meets (negative n) fs
  transform_tools-Meets (float t) fs e = some_tools-Meets (float t) fs
  transform_tools-Meets (string t) fs e = some_tools-Meets (string t) fs
  transform_tools-Meets (array vs) fs e = some_tools-Meets (array vs) fs
  transform_tools-Meets (object gs) fs e = some_tools-Meets (object gs) fs

  abbrev IsFilled : Fields → Fields → Type 0
  unfolding text
  IsFilled fs gs = IsHeld (text "variables") (TreeReleased c.Good false conversation) fs gs

  filled :
      (v : Json) (fs : Fields)
      → Done c (IsFilled fs) (
          recursive l c.transform false conversation v >>= λ done.
          pure (put_field (text "variables") done fs))
  unfolding IsFilled text
  filled v fs =
      bind c (TreeReleased c.Good false conversation) (IsFilled fs)
        (recursive l c.transform false conversation v) _ (tree-Meets c l false conversation v)
        (λ w good.
          give c (IsFilled fs) (put_field (text "variables") w fs)
            (IsHeld-put (text "variables") (TreeReleased c.Good false conversation) w fs good))

  transform_variables-Meets :
      (v : Json) (fs : Fields)
      → get_or_null (text "variables") fs ≡ v
      → Done c (IsFilled fs) (transform_variables l c.transform v fs)
  unfolding transform_variables text IsFilled
  transform_variables-Meets null fs e =
      give c (IsFilled fs) fs
        (IsHeld-same (text "variables") (TreeReleased c.Good false conversation) null fs e tt)
  transform_variables-Meets (boolean b) fs e = filled (boolean b) fs
  transform_variables-Meets (int n) fs e = filled (int n) fs
  transform_variables-Meets (negative n) fs e = filled (negative n) fs
  transform_variables-Meets (float t) fs e = filled (float t) fs
  transform_variables-Meets (string t) fs e = filled (string t) fs
  transform_variables-Meets (array vs) fs e = filled (array vs) fs
  transform_variables-Meets (object gs) fs e = filled (object gs) fs

  abbrev IsPrompted : Fields → Fields → Type 0
  unfolding text
  IsPrompted fs gs = IsHeld (text "prompt") (Prompt l c.Good) fs gs

  some_prompt-Meets :
      (v : Json) (fs : Fields)
      → Done c (IsPrompted fs) (
          lift (object_of (responses prompt_invalid) v) >>= λ prompt.
          transform_variables l c.transform (get_or_null (text "variables") prompt) prompt
          >>= λ done. pure (put_field (text "prompt") (object done) fs))
  unfolding IsPrompted IsFilled text
  some_prompt-Meets v fs =
      bind c _ (IsPrompted fs) (lift (object_of (responses prompt_invalid) v)) _
        (fetch c (object_of (responses prompt_invalid) v))
        (λ prompt _.
          bind c (IsFilled prompt) (IsPrompted fs)
            (transform_variables l c.transform (get_or_null (text "variables") prompt) prompt) _
            (transform_variables-Meets (get_or_null (text "variables") prompt) prompt refl)
            (λ ps good.
              give c (IsPrompted fs) (put_field (text "prompt") (object ps) fs)
                (IsHeld-put (text "prompt") (Prompt l c.Good) (object ps) fs (a_prompt good.0))))

  transform_prompt-Meets :
      (v : Json) (fs : Fields)
      → get_or_null (text "prompt") fs ≡ v
      → Done c (IsPrompted fs) (transform_prompt l c.transform v fs)
  unfolding transform_prompt text IsPrompted
  transform_prompt-Meets null fs e =
      give c (IsPrompted fs) fs (IsHeld-same (text "prompt") (Prompt l c.Good) null fs e no_prompt)
  transform_prompt-Meets (boolean b) fs e = some_prompt-Meets (boolean b) fs
  transform_prompt-Meets (int n) fs e = some_prompt-Meets (int n) fs
  transform_prompt-Meets (negative n) fs e = some_prompt-Meets (negative n) fs
  transform_prompt-Meets (float t) fs e = some_prompt-Meets (float t) fs
  transform_prompt-Meets (string t) fs e = some_prompt-Meets (string t) fs
  transform_prompt-Meets (array vs) fs e = some_prompt-Meets (array vs) fs
  transform_prompt-Meets (object gs) fs e = some_prompt-Meets (object gs) fs

  -- Whatever the libraries answer, for a transformation of texts that changes its state only in
  -- steps of a kind and returns texts that are good for their kind of content: the state has
  -- changed in such steps, and in a document that is returned, the instructions, the input, with
  -- the messages, calls, outputs and reasonings among its items, the tools and the variables of
  -- the prompt have, in the places that the module transforms, only good texts. Nothing is said of
  -- items and parts of other types, and of other fields.
  pub transform_request-Done :
      (fs : Fields) (s : S)
      → c.course.Reached s
      → c.course.Step s (transform_request l c.transform fs s).0
        × Ends any_error (RequestReleased l c.Good) (transform_request l c.transform fs s).1
  unfolding transform_request text text_eq IsEquipped IsPrompted
  transform_request-Done fs s reached =
      (bind c (IsHeld (text "instructions") (TextOrItems l c.Good) fs) (RequestReleased l c.Good)
          (optional_text_or_items l c.transform (text "instructions") fs) _
          (optional_text_or_items-Meets (text "instructions") fs)
          (λ one a.
            bind c (IsHeld (text "input") (TextOrItems l c.Good) one) (RequestReleased l c.Good)
              (optional_text_or_items l c.transform (text "input") one) _
              (optional_text_or_items-Meets (text "input") one)
              (λ two b.
                bind c (IsEquipped two) (RequestReleased l c.Good)
                  (transform_tools l c.transform (get_or_null (text "tools") two) two) _
                  (transform_tools-Meets (get_or_null (text "tools") two) two refl)
                  (λ three d.
                    weaken c (IsPrompted three) (RequestReleased l c.Good)
                      (transform_prompt l c.transform (get_or_null (text "prompt") three) three)
                      (λ gs e. (
                        IsHeld-kept (text "prompt") (text "instructions") (TextOrItems l c.Good)
                            three gs refl e.1
                            (IsHeld-kept (text "tools") (text "instructions") (TextOrItems l c.Good)
                              two three refl d.1
                              (IsHeld-kept (text "input") (text "instructions")
                                (TextOrItems l c.Good) one two refl b.1 a.0)),
                        IsHeld-kept (text "prompt") (text "input") (TextOrItems l c.Good) three gs
                            refl e.1
                            (IsHeld-kept (text "tools") (text "input") (TextOrItems l c.Good) two
                              three refl d.1 b.0),
                        IsHeld-kept (text "prompt") (text "tools") (Tools l c.Good) three gs refl
                            e.1 d.0,
                        e.0,
                      ))
                      (transform_prompt-Meets (get_or_null (text "prompt") three) three refl)))))
        s reached
