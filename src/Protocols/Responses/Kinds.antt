-- ===== src/Protocols/Responses/Kinds.antt =====
-- What src/mr_hide/protocols/responses/json_body.py makes of an item of each type.
use mr_hide.Protocols.Walk.{lift, pure, raise}
use mr_hide.Prelude.{
  if◌then◌else◌, Bool-cases, ◌≡◌, refl, sym, inl, inr, Bool, true, false, ◌&&◌, text, text_eq,
}
use mr_hide.Errors.{item_invalid, responses}
use mr_hide.Json.{Json, object, Fields, has_field, get_or_null}
use mr_hide.Policy.{conversation, tool_result}
use mr_hide.Protocols.Documents.{BodyLibrary, object_of, is_typed}
use mr_hide.Protocols.Contract.{Callback}
use mr_hide.Protocols.Strings.{type_of, same_type}
use mr_hide.Protocols.Responses.Items.{
  is_untyped, output_value_of, transform_output_value, content_value, transform_content,
  item_of_type, transform_item,
}
use mr_hide.Protocols.Responses.Released.{
  is_message, is_call, is_known, ContentReleased, OutputReleased, Item, message_item, output_item,
  other_item, ItemReleased,
}
use mr_hide.Protocols.Responses.Rules.{typed-kept, Done, bind, weaken, give, refuse, fetch}
use mr_hide.Protocols.Responses.Parts.{
  IsUpdated, looked_up, content_value-Meets, output_value_of-Meets,
}
use mr_hide.Protocols.Responses.Calls.{transform_call-Meets, transform_custom_call-Meets}
use mr_hide.Protocols.Responses.Reasoning.{transform_reasoning-Meets}

and_left : (a b : Bool) → (a && b) ≡ true → a ≡ true
and_left true b h = refl
and_left false b h = cc

module _ {S : Type 0} (c : Callback S) (l : BodyLibrary) where
  message_Meets :
      (incomplete : Bool) (fs : Fields)
      → is_message (type_of fs) ≡ true
      → Done c (Item l c.Good incomplete) (transform_content l c.transform conversation fs)
  unfolding transform_content text text_eq
  message_Meets incomplete fs typed =
      weaken c (IsUpdated (text "content") (ContentReleased l c.Good conversation) fs)
        (Item l c.Good incomplete)
        (content_value l c.transform conversation (get_or_null (text "content") fs) fs)
        (λ gs ((w, there, good), kept).
          message_item (typed-kept is_message (same_type (text "content") fs gs refl kept) typed)
            there good)
        (content_value-Meets c l conversation (get_or_null (text "content") fs) fs)

  output_Meets :
      (incomplete : Bool) (fs : Fields)
      → is_typed (text "function_call_output") (type_of fs) ≡ true
      → Done c
          (Item l c.Good incomplete)
          (transform_output_value l c.transform (text "output") tool_result fs)
  unfolding transform_output_value text text_eq
  output_Meets incomplete fs typed =
      weaken c (IsUpdated (text "output") (OutputReleased l c.Good) fs) (Item l c.Good incomplete)
        (output_value_of l c.transform (text "output") tool_result (get_or_null (text "output") fs)
          fs)
        (λ gs ((w, there, good), kept).
          output_item
            (typed-kept (is_typed (text "function_call_output"))
              (same_type (text "output") fs gs refl kept) typed)
            there good)
        (output_value_of-Meets c l (get_or_null (text "output") fs) fs)

  other_Meets :
      (incomplete : Bool) (v : Json) (fs : Fields)
      → v ≡ type_of fs
      → (is_message v && has_field (text "content") fs) ≡ false
      → is_known v ≡ false
      → Done c
          (Item l c.Good incomplete)
          (if is_untyped v then raise (responses item_invalid) else pure fs)
  other_Meets incomplete v fs same e f = elim (Bool-cases (is_untyped v)) [
    | inl g ↦ rw g (refuse c (Item l c.Good incomplete) (responses item_invalid))
    | inr g ↦ rw g (
        give c (Item l c.Good incomplete) fs (
          other_item (typed-kept (λ w. is_message w && has_field (text "content") fs) (sym same) e)
            (typed-kept is_known (sym same) f)))
  ]

  item_of_type-Meets :
      (incomplete : Bool) (v : Json) (fs : Fields)
      → v ≡ type_of fs
      → Done c (Item l c.Good incomplete) (item_of_type l c.transform incomplete v fs)
  unfolding item_of_type text is_message is_call is_known
  item_of_type-Meets incomplete v fs same =
      elim (Bool-cases (is_message v && has_field (text "content") fs)) [
        | inl e ↦ rw e (
            message_Meets incomplete fs (
              typed-kept is_message (sym same)
                (and_left (is_message v) (has_field (text "content") fs) e)))
        | inr e1 ↦ rw e1 (elim (Bool-cases (is_typed (text "function_call_output") v)) [
          | inl e ↦ rw e (
              output_Meets incomplete fs
                (typed-kept (is_typed (text "function_call_output")) (sym same) e))
          | inr e2 ↦ rw e2 (elim (Bool-cases (is_call v)) [
            | inl e ↦
                rw e (transform_call-Meets c l incomplete fs (typed-kept is_call (sym same) e))
            | inr e3 ↦ rw e3 (elim (Bool-cases (is_typed (text "custom_tool_call") v)) [
              | inl e ↦ rw e (
                  transform_custom_call-Meets c l incomplete fs
                    (typed-kept (is_typed (text "custom_tool_call")) (sym same) e))
              | inr e4 ↦ rw e4 (elim (Bool-cases (is_typed (text "reasoning") v)) [
                | inl e ↦ rw e (
                    transform_reasoning-Meets c l incomplete fs
                      (typed-kept (is_typed (text "reasoning")) (sym same) e))
                | inr e5 ↦ rw e5 (other_Meets incomplete v fs same e1 (rw (e2, e3, e4, e5) refl))
              ])
            ])
          ])
        ])
      ]

  -- Whatever the state and the replies of the libraries are: an item that is transformed has, for its
  -- type, only texts that are good for the kind of content that they are.
  pub transform_item-Meets :
      (incomplete : Bool) (v : Json)
      → Done c (ItemReleased l c.Good incomplete) (transform_item l c.transform incomplete v)
  unfolding transform_item type_of text
  transform_item-Meets incomplete v =
      bind c _ (ItemReleased l c.Good incomplete) (lift (object_of (responses item_invalid) v)) _
        (fetch c (object_of (responses item_invalid) v))
        (λ fs _. looked_up c l (ItemReleased l c.Good incomplete) fs _ (λ item_type same.
          bind c (Item l c.Good incomplete) (ItemReleased l c.Good incomplete)
            (item_of_type l c.transform incomplete item_type fs) _
            (item_of_type-Meets incomplete item_type fs same)
            (λ gs good. give c (ItemReleased l c.Good incomplete) (object gs) (gs, refl, good))))
