-- ===== src/Protocols/Messages/Contents.antt =====
-- What src/mr_hide/protocols/messages/json_body.py makes of the blocks of a content.
use mr_hide.Protocols.Walk.{Walk, lift, each, object_or}
use mr_hide.Prelude.{Bool-cases, ◌≡◌, refl, ◌∙◌, inl, inr, true, text, text_eq}
use mr_hide.Errors.{tool_input_invalid, tool_result_invalid, messages}
use mr_hide.Json.{
  Json, null, boolean, int, negative, float, string, array, object, Fields, has_field, put_field,
  get_or_null,
}
use mr_hide.Json.Laws.{get_field-put, OthersKept, put_field-OthersKept}
use mr_hide.Policy.{ContentKind, tool_result, tool_history}
use mr_hide.Protocols.Documents.{object_of, is_typed}
use mr_hide.Protocols.Contract.{EveryItem, Meets, raise-Meets, each-Meets, Callback}
use mr_hide.Protocols.Released.{TreeReleased}
use mr_hide.Protocols.Messages.Blocks.{
  is_messages, dialect, required, json_tree, transform_input, tool_result_block,
  transform_tool_result, transform_result_content, transform_tool_use,
}
use mr_hide.Protocols.Messages.Released.{
  TreeUnder, ResultBlock, ToolResult, result_text, result_blocks, Block, tool_use_block,
  empty_result_block, filled_result_block,
}
use mr_hide.Protocols.Messages.Rules.{
  bind, weaken, give, lift-object, object_or-Meets, required-Meets, call-Meets, tree-Meets,
  EveryItem-Unit,
}
use mr_hide.Protocols.Strings.{type_of, same_type, IsPut, IsPut-released, FieldReleased-kept}
use mr_hide.Protocols.Tree.{call_transform}

module _ {S : Type 0} (c : Callback S) where
  abbrev Done : {A : Type 0} → (A → Type 0) → Walk S A → Type 0
  Done Q w = Meets c.course is_messages Q w

  abbrev pub IsTree : ContentKind → Fields → Fields → Type 0
  unfolding text
  IsTree kind fs gs = TreeUnder c.Good (text "input") kind gs × OthersKept (text "input") fs gs

  pub transform_input-Meets :
      (kind : ContentKind) (fs : Fields)
      → Done (IsTree kind fs) (transform_input c.transform kind fs)
  unfolding transform_input text
  transform_input-Meets kind fs =
      bind c (λ gs. get_or_null (text "input") fs ≡ object gs) (IsTree kind fs)
        (lift (object_of (messages tool_input_invalid) (get_or_null (text "input") fs))) _
        (lift-object c tool_input_invalid (get_or_null (text "input") fs))
        (λ gs _.
          bind c (TreeReleased c.Good true kind) (IsTree kind fs)
            (json_tree c.transform kind (object gs)) _ (tree-Meets c kind (object gs))
            (λ v good. give c (IsTree kind fs) (put_field (text "input") v fs) (
              (v, get_field-put (text "input") v fs, good),
              put_field-OthersKept (text "input") v fs (put_field (text "input") v fs) refl,
            )))

  tool_result_block-Meets :
      (fs : Fields) → Done (λ gs. ResultBlock c.Good (object gs)) (tool_result_block c.transform fs)
  unfolding tool_result_block type_of text
  tool_result_block-Meets fs =
      elim (Bool-cases (is_typed (text "text") (get_or_null (text "type") fs))) [
        | inl e ↦ rw e (
            weaken c (IsPut c.Good (text "text") tool_result fs)
              (λ gs. ResultBlock c.Good (object gs))
              (required c.transform (text "text") tool_result fs)
              (λ gs put.
                (gs, refl, inr (IsPut-released c.Good (text "text") tool_result fs gs put)))
              (required-Meets c (text "text") tool_result fs))
        | inr e ↦ rw e (give c (λ gs. ResultBlock c.Good (object gs)) fs (fs, refl, inl e))
      ]

  transform_tool_result-Meets :
      (v : Json) → Done (ToolResult c.Good) (transform_tool_result c.transform v)
  unfolding transform_tool_result
  transform_tool_result-Meets (string t) =
      bind c (c.Good tool_result) (ToolResult c.Good)
        (call_transform dialect c.transform t tool_result) _ (call-Meets c t tool_result)
        (λ u good. give c (ToolResult c.Good) (string u) (result_text good))
  transform_tool_result-Meets (array vs) =
      bind c (EveryItem (ResultBlock c.Good)) (ToolResult c.Good)
        (each (object_or (messages tool_result_invalid) (tool_result_block c.transform)) vs) _
        (each-Meets c.course is_messages c.steps (λ v. Unit) (ResultBlock c.Good)
          (object_or (messages tool_result_invalid) (tool_result_block c.transform)) vs
          (object_or-Meets c tool_result_invalid (λ v. Unit) (ResultBlock c.Good)
            (tool_result_block c.transform) (λ fs given. tool_result_block-Meets fs))
          (EveryItem-Unit vs))
        (λ ws good. give c (ToolResult c.Good) (array ws) (result_blocks good))
  transform_tool_result-Meets null =
      raise-Meets c.course is_messages c.steps (ToolResult c.Good) (messages tool_result_invalid)
        refl
  transform_tool_result-Meets (boolean b) =
      raise-Meets c.course is_messages c.steps (ToolResult c.Good) (messages tool_result_invalid)
        refl
  transform_tool_result-Meets (int n) =
      raise-Meets c.course is_messages c.steps (ToolResult c.Good) (messages tool_result_invalid)
        refl
  transform_tool_result-Meets (negative n) =
      raise-Meets c.course is_messages c.steps (ToolResult c.Good) (messages tool_result_invalid)
        refl
  transform_tool_result-Meets (float t) =
      raise-Meets c.course is_messages c.steps (ToolResult c.Good) (messages tool_result_invalid)
        refl
  transform_tool_result-Meets (object fs) =
      raise-Meets c.course is_messages c.steps (ToolResult c.Good) (messages tool_result_invalid)
        refl

  pub transform_tool_use-Meets :
      (fs : Fields)
      → type_of fs ≡ string (text "tool_use")
      → Done (Block c.Good) (transform_tool_use c.transform fs)
  unfolding transform_tool_use text text_eq
  transform_tool_use-Meets fs typed =
      bind c (IsPut c.Good (text "name") tool_history fs) (Block c.Good)
        (required c.transform (text "name") tool_history fs) _
        (required-Meets c (text "name") tool_history fs)
        (λ named put.
          weaken c (IsTree tool_history named) (Block c.Good)
            (transform_input c.transform tool_history named)
            (λ gs done.
              tool_use_block
                (same_type (text "input") named gs refl done.1
                  ∙ same_type (text "name") fs named refl
                      (put_field-OthersKept (text "name") (string put.0) fs named put.1)
                  ∙ typed)
                (FieldReleased-kept c.Good (text "input") (text "name") tool_history named gs refl
                  done.1 (IsPut-released c.Good (text "name") tool_history fs named put))
                done.0)
            (transform_input-Meets tool_history named))

  pub transform_result_content-Meets :
      (fs : Fields)
      → type_of fs ≡ string (text "tool_result")
      → Done (Block c.Good) (transform_result_content c.transform fs)
  unfolding transform_result_content text text_eq
  transform_result_content-Meets fs typed = elim (Bool-cases (has_field (text "content") fs)) [
    | inl e ↦ rw e (
        bind c (ToolResult c.Good) (Block c.Good)
          (transform_tool_result c.transform (get_or_null (text "content") fs)) _
          (transform_tool_result-Meets (get_or_null (text "content") fs))
          (λ v good. give c (Block c.Good) (put_field (text "content") v fs) (
            filled_result_block
              (same_type (text "content") fs (put_field (text "content") v fs) refl (
                  put_field-OthersKept (text "content") v fs (put_field (text "content") v fs) refl)
                ∙ typed)
              (get_field-put (text "content") v fs) good)))
    | inr e ↦ rw e (give c (Block c.Good) fs (empty_result_block typed e))
  ]
