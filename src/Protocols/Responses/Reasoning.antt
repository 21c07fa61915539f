-- ===== src/Protocols/Responses/Reasoning.antt =====
-- What src/mr_hide/protocols/responses/json_body.py makes of reasoning.
use mr_hide.Protocols.Walk.{pure, each}
use mr_hide.Prelude.{
  if◌then◌else◌, Bool-cases, Text, ◌≡◌, refl, sym, subst, ◌∙◌, ◌⊎◌, inl, inr, Bool, true, false,
  ◌||◌, text, text_eq,
}
use mr_hide.Errors.{content_invalid, responses}
use mr_hide.Json.{
  Json, null, boolean, int, negative, float, string, array, object, Fields, put_field, get_or_null,
}
use mr_hide.Json.Laws.{OthersKept, put_field-OthersKept, get_or_null-kept, get_or_null-put}
use mr_hide.Policy.{conversation}
use mr_hide.Protocols.Documents.{BodyLibrary, is_typed}
use mr_hide.Protocols.Contract.{EveryItem, Callback}
use mr_hide.Protocols.Strings.{type_of, same_type, FieldReleased, IsPut, IsPut-released}
use mr_hide.Protocols.Responses.Items.{
  required, reasoning_part, reasoning_parts, reasoning_field, transform_reasoning,
}
use mr_hide.Protocols.Responses.Released.{
  ReasoningPart, ReasoningReleased, no_reasoning, reasoning_list, Item, reasoning_item,
}
use mr_hide.Protocols.Responses.Rules.{
  typed-kept, Done, bind, weaken, give, refuse, required-Meets, loop,
}
use mr_hide.Protocols.Responses.Parts.{looked_up}

module _ {S : Type 0} (c : Callback S) (l : BodyLibrary) where
  abbrev IsReasonedPart : Fields → Type 0
  unfolding text
  IsReasonedPart gs =
      (is_typed (text "summary_text") (type_of gs) || is_typed (text "reasoning_text") (type_of gs))
        ≡ false
      ⊎ FieldReleased c.Good (text "text") conversation gs

  reasoned_part :
      (v : Json) (fs : Fields)
      → v ≡ type_of fs
      → Done c IsReasonedPart (
          if is_typed (text "summary_text") v || is_typed (text "reasoning_text") v
          then required l c.transform (text "text") conversation fs
          else pure fs)
  unfolding IsReasonedPart
  reasoned_part v fs same =
      elim (Bool-cases (is_typed (text "summary_text") v || is_typed (text "reasoning_text") v)) [
        | inl e ↦ rw e (
            weaken c (IsPut c.Good (text "text") conversation fs) IsReasonedPart
              (required l c.transform (text "text") conversation fs)
              (λ gs put. inr (IsPut-released c.Good (text "text") conversation fs gs put))
              (required-Meets c l (text "text") conversation fs))
        | inr e ↦ rw e (
            give c IsReasonedPart fs (
              inl (
                typed-kept
                  (λ w. is_typed (text "summary_text") w || is_typed (text "reasoning_text") w)
                  (sym same) e)))
      ]

  reasoning_part-Meets :
      (v : Json) → Done c (ReasoningPart l c.Good) (reasoning_part l c.transform v)
  unfolding reasoning_part type_of text IsReasonedPart
  reasoning_part-Meets (object fs) = looked_up c l (ReasoningPart l c.Good) fs _ (λ v same.
      bind c IsReasonedPart (ReasoningPart l c.Good) _ _ (reasoned_part v fs same)
        (λ gs good. give c (ReasoningPart l c.Good) (object gs) (inr (gs, refl, good))))
  reasoning_part-Meets null = give c (ReasoningPart l c.Good) null (inl refl)
  reasoning_part-Meets (boolean b) = give c (ReasoningPart l c.Good) (boolean b) (inl refl)
  reasoning_part-Meets (int n) = give c (ReasoningPart l c.Good) (int n) (inl refl)
  reasoning_part-Meets (negative n) = give c (ReasoningPart l c.Good) (negative n) (inl refl)
  reasoning_part-Meets (float t) = give c (ReasoningPart l c.Good) (float t) (inl refl)
  reasoning_part-Meets (string t) = give c (ReasoningPart l c.Good) (string t) (inl refl)
  reasoning_part-Meets (array vs) = give c (ReasoningPart l c.Good) (array vs) (inl refl)

  abbrev pub IsReasoned : Text → Fields → Fields → Type 0
  IsReasoned key fs gs = ReasoningReleased l c.Good (get_or_null key gs) × OthersKept key fs gs

  reasoning_parts-Meets :
      (key : Text) (v : Json) (fs : Fields)
      → get_or_null key fs ≡ v
      → Done c (IsReasoned key fs) (reasoning_parts l c.transform key v fs)
  unfolding reasoning_parts
  reasoning_parts-Meets key null fs e =
      give c (IsReasoned key fs) fs
        (subst (ReasoningReleased l c.Good) (sym e) no_reasoning, λ j other. refl)
  reasoning_parts-Meets key (array vs) fs e =
      bind c (EveryItem (ReasoningPart l c.Good)) (IsReasoned key fs)
        (each (reasoning_part l c.transform) vs) _
        (loop c (ReasoningPart l c.Good) (reasoning_part l c.transform) vs reasoning_part-Meets)
        (λ ws good. give c (IsReasoned key fs) (put_field key (array ws) fs) (
          subst (ReasoningReleased l c.Good) (sym (get_or_null-put key (array ws) fs))
              (reasoning_list good),
          put_field-OthersKept key (array ws) fs (put_field key (array ws) fs) refl,
        ))
  reasoning_parts-Meets key (boolean b) fs e =
      refuse c (IsReasoned key fs) (responses content_invalid)
  reasoning_parts-Meets key (int n) fs e = refuse c (IsReasoned key fs) (responses content_invalid)
  reasoning_parts-Meets key (negative n) fs e =
      refuse c (IsReasoned key fs) (responses content_invalid)
  reasoning_parts-Meets key (float t) fs e =
      refuse c (IsReasoned key fs) (responses content_invalid)
  reasoning_parts-Meets key (string t) fs e =
      refuse c (IsReasoned key fs) (responses content_invalid)
  reasoning_parts-Meets key (object gs) fs e =
      refuse c (IsReasoned key fs) (responses content_invalid)

  pub reasoning_field-Meets :
      (key : Text) (fs : Fields) → Done c (IsReasoned key fs) (reasoning_field l c.transform key fs)
  unfolding reasoning_field
  reasoning_field-Meets key fs = reasoning_parts-Meets key (get_or_null key fs) fs refl

  pub transform_reasoning-Meets :
      (incomplete : Bool) (fs : Fields)
      → is_typed (text "reasoning") (type_of fs) ≡ true
      → Done c (Item l c.Good incomplete) (transform_reasoning l c.transform fs)
  unfolding transform_reasoning text text_eq
  transform_reasoning-Meets incomplete fs typed =
      bind c (IsReasoned (text "summary") fs) (Item l c.Good incomplete)
        (reasoning_field l c.transform (text "summary") fs) _
        (reasoning_field-Meets (text "summary") fs)
        (λ done a.
          weaken c (IsReasoned (text "content") done) (Item l c.Good incomplete)
            (reasoning_field l c.transform (text "content") done)
            (λ gs b.
              reasoning_item
                (typed-kept (is_typed (text "reasoning"))
                  (same_type (text "content") done gs refl b.1
                    ∙ same_type (text "summary") fs done refl a.1)
                  typed)
                (subst (ReasoningReleased l c.Good)
                  (sym (get_or_null-kept (text "content") (text "summary") done gs refl b.1)) a.0)
                b.0)
            (reasoning_field-Meets (text "content") done))
