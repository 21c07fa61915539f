-- ===== src/Protocols/Messages/Fuel.antt =====
-- The contents of src/mr_hide/protocols/messages/json_body.py at every depth: the fuel is enough, and
-- what is left of a content has been transformed.
use mr_hide.Protocols.Walk.{Walk, lift, each, object_or}
use mr_hide.Prelude.{
  Bool-cases, Text, text_eq_iff, ℕ, zero, suc, ◌+◌, ◌<◌, ◌≡◌, refl, sym, ap, subst, ◌∙◌, inl, inr,
  true, arith, text, text_eq,
}
use mr_hide.Errors.{content_invalid, messages}
use mr_hide.Json.{
  Json, null, boolean, int, negative, float, string, array, object, Items, nil, cons, Fields,
  get_or_null,
}
use mr_hide.Json.Laws.{put_field-OthersKept}
use mr_hide.Policy.{conversation}
use mr_hide.Protocols.Documents.{string_of}
use mr_hide.Protocols.Contract.{EveryItem, Meets, raise-Meets, each-Meets, Callback}
use mr_hide.Protocols.Tree.{call_transform}
use mr_hide.Protocols.Strings.{type_of, same_type, IsPut, IsPut-released}
use mr_hide.Protocols.Messages.Blocks.{
  is_messages, dialect, required, input_block_of, transform_input_block, transform_content,
}
use mr_hide.Protocols.Messages.Released.{
  known_types, Content, content_text, content_blocks, Blocks, no_blocks, more_blocks, Block,
  text_block, other_block,
}
use mr_hide.Protocols.Messages.Rules.{
  bind, weaken, give, lift-string, object_or-Meets, required-Meets, call-Meets,
}
use mr_hide.Protocols.Depth.{depth, items_depth, fields_depth}
use mr_hide.Protocols.Messages.Contents.{transform_tool_use-Meets, transform_result_content-Meets}
use mr_hide.Protocols.Messages.Sources.{transform_document-Meets, transform_search_result-Meets}

names_type :
    (fs : Fields) (t name : Text)
    → type_of fs ≡ string t
    → text_eq t name ≡ true
    → type_of fs ≡ string name
names_type fs t name typed e = typed ∙ ap string ((text_eq_iff t name).0 e)

module _ {S : Type 0} (c : Callback S) where
  abbrev Done : {A : Type 0} → (A → Type 0) → Walk S A → Type 0
  Done Q w = Meets c.course is_messages Q w

  module _ (n : ℕ) (content : Json → Walk S Json)
      (inner : (v : Json) → depth v < n → Done (Content c.Good) (content v)) where
    input_block_of-Meets :
        (t : Text) (fs : Fields)
        → type_of fs ≡ string t
        → fields_depth fs < n
        → Done (Block c.Good) (input_block_of c.transform content t fs)
    unfolding input_block_of text known_types
    input_block_of-Meets t fs typed small = elim (Bool-cases (text_eq t (text "text"))) [
      | inl e ↦ rw e (
          weaken c (IsPut c.Good (text "text") conversation fs) (Block c.Good)
            (required c.transform (text "text") conversation fs)
            (λ gs put.
              text_block
                (same_type (text "text") fs gs (unfold text_eq in refl)
                    (put_field-OthersKept (text "text") (string put.0) fs gs put.1)
                  ∙ names_type fs t (text "text") typed e)
                (IsPut-released c.Good (text "text") conversation fs gs put))
            (required-Meets c (text "text") conversation fs))
      | inr e1 ↦ rw e1 (elim (Bool-cases (text_eq t (text "tool_use"))) [
        | inl e ↦ rw e (transform_tool_use-Meets c fs (names_type fs t (text "tool_use") typed e))
        | inr e2 ↦ rw e2 (elim (Bool-cases (text_eq t (text "tool_result"))) [
          | inl e ↦
              rw e
                (transform_result_content-Meets c fs (names_type fs t (text "tool_result") typed e))
          | inr e3 ↦ rw e3 (elim (Bool-cases (text_eq t (text "document"))) [
            | inl e ↦ rw e (
                transform_document-Meets c n content inner fs
                  (names_type fs t (text "document") typed e) small)
            | inr e4 ↦ rw e4 (elim (Bool-cases (text_eq t (text "search_result"))) [
              | inl e ↦ rw e (
                  transform_search_result-Meets c n content inner fs
                    (names_type fs t (text "search_result") typed e) small)
              | inr e5 ↦
                  rw e5
                    (give c (Block c.Good) fs (other_block typed (rw (e1, e2, e3, e4, e5) refl)))
            ])
          ])
        ])
      ])
    ]

    transform_input_block-Meets :
        (fs : Fields)
        → fields_depth fs < n
        → Done (Block c.Good) (transform_input_block c.transform content fs)
    unfolding transform_input_block type_of text
    transform_input_block-Meets fs small =
        bind c (λ t. get_or_null (text "type") fs ≡ string t) (Block c.Good)
          (lift (string_of (messages content_invalid) (get_or_null (text "type") fs))) _
          (lift-string c content_invalid (get_or_null (text "type") fs))
          (λ t typed. input_block_of-Meets t fs typed small)

  IsBlock : Json → Type 0
  IsBlock v = (fs : Fields) × (v ≡ object fs) × Block c.Good fs

  Blocks-of : (vs : Items) → EveryItem IsBlock vs → Blocks c.Good vs
  unfolding IsBlock
  Blocks-of nil every = no_blocks
  Blocks-of (cons v vs) ((fs, same, good), every) =
      subst (λ w. Blocks c.Good (cons w vs)) (sym same) (more_blocks good (Blocks-of vs every))

  shallow_items : (n : ℕ) (vs : Items) → items_depth vs < n + 1 → EveryItem (λ v. depth v < n) vs
  unfolding items_depth
  shallow_items n nil small = tt
  shallow_items n (cons v vs) small =
      (omega (arith, small), shallow_items n vs (omega (arith, small)))

  -- The contract of a content at every depth, for the proofs about what has a content.
  pub bounded-Meets :
      (n : ℕ) (v : Json)
      → depth v < n
      → Done (Content c.Good) (transform_content c.transform n conversation v)
  unfolding transform_content depth
  bounded-Meets n (string t) small =
      bind c (c.Good conversation) (Content c.Good)
        (call_transform dialect c.transform t conversation) _ (call-Meets c t conversation)
        (λ u good. give c (Content c.Good) (string u) (content_text good))
  bounded-Meets zero (array vs) small = absurd (omega (arith, small))
  bounded-Meets (suc n) (array vs) small =
      bind c (EveryItem IsBlock) (Content c.Good)
        (each
          (object_or (messages content_invalid)
            (transform_input_block c.transform (transform_content c.transform n conversation)))
          vs)
        _
        (each-Meets c.course is_messages c.steps (λ v. depth v < n) IsBlock
          (object_or (messages content_invalid)
            (transform_input_block c.transform (transform_content c.transform n conversation)))
          vs
          (object_or-Meets c content_invalid (λ v. depth v < n) IsBlock
            (transform_input_block c.transform (transform_content c.transform n conversation))
            (λ fs less.
              weaken c (Block c.Good) (λ gs. IsBlock (object gs))
                (transform_input_block c.transform (transform_content c.transform n conversation)
                  fs)
                (λ gs good. unfold IsBlock in (gs, refl, good))
                (transform_input_block-Meets n (transform_content c.transform n conversation)
                  (bounded-Meets n) fs less)))
          (shallow_items n vs (omega (arith, small))))
        (λ ws good. give c (Content c.Good) (array ws) (content_blocks (Blocks-of ws good)))
  bounded-Meets n null small =
      raise-Meets c.course is_messages c.steps (Content c.Good) (messages content_invalid) refl
  bounded-Meets n (boolean b) small =
      raise-Meets c.course is_messages c.steps (Content c.Good) (messages content_invalid) refl
  bounded-Meets n (int k) small =
      raise-Meets c.course is_messages c.steps (Content c.Good) (messages content_invalid) refl
  bounded-Meets n (negative k) small =
      raise-Meets c.course is_messages c.steps (Content c.Good) (messages content_invalid) refl
  bounded-Meets n (float t) small =
      raise-Meets c.course is_messages c.steps (Content c.Good) (messages content_invalid) refl
  bounded-Meets n (object fs) small =
      raise-Meets c.course is_messages c.steps (Content c.Good) (messages content_invalid) refl
