-- ===== src/Protocols/Responses/Parts.antt =====
-- What src/mr_hide/protocols/responses/json_body.py makes of the values in an item.
use mr_hide.Protocols.Walk.{Walk, ◌>>=◌, lift, each, object_or}
use mr_hide.Prelude.{
  Bool-cases, Text, ◌≡◌, refl, sym, ◌∙◌, inl, inr, Bool, true, false, some, text, text_eq,
}
use mr_hide.Errors.{content_invalid, tool_output_invalid, responses, ok, ok-injective}
use mr_hide.Json.{
  Json, null, boolean, int, negative, float, string, array, object, Fields, get_field, put_field,
}
use mr_hide.Json.Laws.{get_field-put, OthersKept, put_field-OthersKept}
use mr_hide.Policy.{ContentKind, tool_result}
use mr_hide.Protocols.Documents.{BodyLibrary, is_typed}
use mr_hide.Protocols.Contract.{EveryItem, Callback}
use mr_hide.Protocols.Tree.{call_transform}
use mr_hide.Protocols.Released.{TreeReleased}
use mr_hide.Protocols.Strings.{type_of, same_type, IsPut, IsPut-released}
use mr_hide.Protocols.Responses.Items.{
  dialect, hashable, required, apply_at, recursive, output_value_of, part_of_type, transform_part,
  content_value,
}
use mr_hide.Protocols.Responses.Released.{
  is_text, Part, text_part, refusal_part, other_part, PartReleased, ContentReleased, content_text,
  content_parts, OutputReleased, output_text, output_tree,
}
use mr_hide.Protocols.Responses.Rules.{
  typed-kept, Done, bind, weaken, give, refuse, fetch, required-Meets, call-Meets, tree-Meets, loop,
}

hashable-ok : (v : Json) {w : Json} → hashable v ≡ ok w → w ≡ v
hashable-ok null h = sym (ok-injective h)
hashable-ok (boolean b) h = sym (ok-injective h)
hashable-ok (int n) h = sym (ok-injective h)
hashable-ok (negative n) h = sym (ok-injective h)
hashable-ok (float t) h = sym (ok-injective h)
hashable-ok (string t) h = sym (ok-injective h)
hashable-ok (array vs) h = cc
hashable-ok (object fs) h = cc

-- Under a key stands what has the property, and the other keys are as they were.
abbrev pub IsUpdated : Text → (Json → Type 0) → Fields → Fields → Type 0
IsUpdated key Q fs gs = ((w : Json) × (get_field key gs ≡ some w) × Q w) × OthersKept key fs gs

pub IsUpdated-put :
    (key : Text) (Q : Json → Type 0) (v : Json) (fs : Fields)
    → Q v
    → IsUpdated key Q fs (put_field key v fs)
IsUpdated-put key Q v fs good =
    ((v, get_field-put key v fs, good), put_field-OthersKept key v fs (put_field key v fs) refl)

module _ {S : Type 0} (c : Callback S) (l : BodyLibrary) where
  pub looked_up :
      {A : Type 0} (Q : A → Type 0) (fs : Fields) (next : Json → Walk S A)
      → ((v : Json) → v ≡ type_of fs → Done c Q (next v))
      → Done c Q (lift (hashable (type_of fs)) >>= next)
  looked_up Q fs next h =
      bind c (λ v. hashable (type_of fs) ≡ ok v) Q (lift (hashable (type_of fs))) next
        (fetch c (hashable (type_of fs))) (λ v same. h v (hashable-ok (type_of fs) same))

  part_of_type-Meets :
      (has_input : Bool) (kind : ContentKind) (v : Json) (fs : Fields)
      → v ≡ type_of fs
      → Done c (Part l c.Good has_input kind) (part_of_type l c.transform has_input kind v fs)
  unfolding part_of_type text text_eq is_text
  part_of_type-Meets has_input kind v fs same = elim (Bool-cases (is_text has_input v)) [
    | inl e ↦ rw e (
        weaken c (IsPut c.Good (text "text") kind fs) (Part l c.Good has_input kind)
          (required l c.transform (text "text") kind fs)
          (λ gs put.
            text_part
              (typed-kept (is_text has_input)
                (same_type (text "text") fs gs refl
                    (put_field-OthersKept (text "text") (string put.0) fs gs put.1)
                  ∙ sym same)
                e)
              (IsPut-released c.Good (text "text") kind fs gs put))
          (required-Meets c l (text "text") kind fs))
    | inr e ↦ rw e (elim (Bool-cases (is_typed (text "refusal") v)) [
      | inl f ↦ rw f (
          weaken c (IsPut c.Good (text "refusal") kind fs) (Part l c.Good has_input kind)
            (required l c.transform (text "refusal") kind fs)
            (λ gs put.
              refusal_part
                (typed-kept (is_typed (text "refusal"))
                  (same_type (text "refusal") fs gs refl
                      (put_field-OthersKept (text "refusal") (string put.0) fs gs put.1)
                    ∙ sym same)
                  f)
                (IsPut-released c.Good (text "refusal") kind fs gs put))
            (required-Meets c l (text "refusal") kind fs))
      | inr f ↦ rw f (
          give c (Part l c.Good has_input kind) fs (
            other_part (typed-kept (is_text has_input) (sym same) e)
              (typed-kept (is_typed (text "refusal")) (sym same) f)))
    ])
  ]

  pub transform_part-Meets :
      (has_input : Bool) (kind : ContentKind) (fs : Fields)
      → Done c (Part l c.Good has_input kind) (transform_part l c.transform has_input kind fs)
  unfolding transform_part type_of text
  transform_part-Meets has_input kind fs =
      looked_up (Part l c.Good has_input kind) fs
        (λ v. part_of_type l c.transform has_input kind v fs)
        (λ v same. part_of_type-Meets has_input kind v fs same)

  pub apply_at-Meets :
      (key : Text) (t : Text) (kind : ContentKind) (Q : Json → Type 0) (fs : Fields)
      → ((u : Text) → c.Good kind u → Q (string u))
      → Done c (IsUpdated key Q fs) (apply_at l c.transform key t kind fs)
  apply_at-Meets key t kind Q fs h =
      bind c (c.Good kind) (IsUpdated key Q fs) (call_transform dialect c.transform t kind) _
        (call-Meets c t kind)
        (λ u good.
          give c (IsUpdated key Q fs) (put_field key (string u) fs)
            (IsUpdated-put key Q (string u) fs (h u good)))

  object_part :
      (kind : ContentKind) (v : Json)
      → Done c
          (PartReleased l c.Good true kind)
          (object_or (responses content_invalid) (transform_part l c.transform true kind) v)
  object_part kind (object fs) =
      bind c (Part l c.Good true kind) (PartReleased l c.Good true kind)
        (transform_part l c.transform true kind fs) _ (transform_part-Meets true kind fs)
        (λ gs good. give c (PartReleased l c.Good true kind) (object gs) (gs, refl, good))
  object_part kind null = refuse c (PartReleased l c.Good true kind) (responses content_invalid)
  object_part kind (boolean b) =
      refuse c (PartReleased l c.Good true kind) (responses content_invalid)
  object_part kind (int n) = refuse c (PartReleased l c.Good true kind) (responses content_invalid)
  object_part kind (negative n) =
      refuse c (PartReleased l c.Good true kind) (responses content_invalid)
  object_part kind (float t) =
      refuse c (PartReleased l c.Good true kind) (responses content_invalid)
  object_part kind (string t) =
      refuse c (PartReleased l c.Good true kind) (responses content_invalid)
  object_part kind (array vs) =
      refuse c (PartReleased l c.Good true kind) (responses content_invalid)

  pub content_value-Meets :
      (kind : ContentKind) (v : Json) (fs : Fields)
      → Done c
          (IsUpdated (text "content") (ContentReleased l c.Good kind) fs)
          (content_value l c.transform kind v fs)
  unfolding content_value text
  content_value-Meets kind (string t) fs =
      apply_at-Meets (text "content") t kind (ContentReleased l c.Good kind) fs
        (λ u good. content_text good)
  content_value-Meets kind (array vs) fs =
      bind c (EveryItem (PartReleased l c.Good true kind))
        (IsUpdated (text "content") (ContentReleased l c.Good kind) fs)
        (each (object_or (responses content_invalid) (transform_part l c.transform true kind)) vs) _
        (loop c (PartReleased l c.Good true kind)
          (object_or (responses content_invalid) (transform_part l c.transform true kind)) vs
          (object_part kind))
        (λ ws good.
          give c (IsUpdated (text "content") (ContentReleased l c.Good kind) fs)
            (put_field (text "content") (array ws) fs)
            (IsUpdated-put (text "content") (ContentReleased l c.Good kind) (array ws) fs
              (content_parts good)))
  content_value-Meets kind null fs =
      refuse c (IsUpdated (text "content") (ContentReleased l c.Good kind) fs)
        (responses content_invalid)
  content_value-Meets kind (boolean b) fs =
      refuse c (IsUpdated (text "content") (ContentReleased l c.Good kind) fs)
        (responses content_invalid)
  content_value-Meets kind (int n) fs =
      refuse c (IsUpdated (text "content") (ContentReleased l c.Good kind) fs)
        (responses content_invalid)
  content_value-Meets kind (negative n) fs =
      refuse c (IsUpdated (text "content") (ContentReleased l c.Good kind) fs)
        (responses content_invalid)
  content_value-Meets kind (float t) fs =
      refuse c (IsUpdated (text "content") (ContentReleased l c.Good kind) fs)
        (responses content_invalid)
  content_value-Meets kind (object gs) fs =
      refuse c (IsUpdated (text "content") (ContentReleased l c.Good kind) fs)
        (responses content_invalid)

  pub output_value_of-Meets :
      (v : Json) (fs : Fields)
      → Done c
          (IsUpdated (text "output") (OutputReleased l c.Good) fs)
          (output_value_of l c.transform (text "output") tool_result v fs)
  unfolding output_value_of
  output_value_of-Meets (string t) fs =
      apply_at-Meets (text "output") t tool_result (OutputReleased l c.Good) fs
        (λ u good. output_text good)
  output_value_of-Meets (array vs) fs =
      bind c (TreeReleased c.Good false tool_result)
        (IsUpdated (text "output") (OutputReleased l c.Good) fs)
        (recursive l c.transform false tool_result (array vs)) _
        (tree-Meets c l false tool_result (array vs))
        (λ w good.
          give c (IsUpdated (text "output") (OutputReleased l c.Good) fs)
            (put_field (text "output") w fs)
            (IsUpdated-put (text "output") (OutputReleased l c.Good) w fs (output_tree good)))
  output_value_of-Meets null fs =
      refuse c (IsUpdated (text "output") (OutputReleased l c.Good) fs)
        (responses tool_output_invalid)
  output_value_of-Meets (boolean b) fs =
      refuse c (IsUpdated (text "output") (OutputReleased l c.Good) fs)
        (responses tool_output_invalid)
  output_value_of-Meets (int n) fs =
      refuse c (IsUpdated (text "output") (OutputReleased l c.Good) fs)
        (responses tool_output_invalid)
  output_value_of-Meets (negative n) fs =
      refuse c (IsUpdated (text "output") (OutputReleased l c.Good) fs)
        (responses tool_output_invalid)
  output_value_of-Meets (float t) fs =
      refuse c (IsUpdated (text "output") (OutputReleased l c.Good) fs)
        (responses tool_output_invalid)
  output_value_of-Meets (object gs) fs =
      refuse c (IsUpdated (text "output") (OutputReleased l c.Good) fs)
        (responses tool_output_invalid)
