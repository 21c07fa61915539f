-- ===== src/Protocols/Responses/Calls.antt =====
-- What src/mr_hide/protocols/responses/json_body.py makes of calls.
use mr_hide.Protocols.Walk.{lift, pure}
use mr_hide.Prelude.{
  ltb, if◌then◌else◌, Bool-cases, length, Text, ◌≡◌, refl, ap, ◌∙◌, inl, inr, Bool, true, false,
  ◌&&◌, some, [], ◌∷◌, text, text_eq,
}
use mr_hide.Errors.{json_size_invalid, tool_arguments_invalid, responses, ok, raise_if}
use mr_hide.Json.{
  Json, null, boolean, int, negative, float, string, array, object, Fields, put_field, get_or_null,
}
use mr_hide.Json.Laws.{OthersKept, put_field-OthersKept, get_or_null-kept}
use mr_hide.Policy.{ContentKind, tool_definition, tool_argument}
use mr_hide.Protocols.Documents.{
  BodyLibrary, max_json_bytes, string_of, is_typed, document_hooks, checked_document, dump,
}
use mr_hide.Protocols.Contract.{Callback}
use mr_hide.Protocols.Released.{TreeReleased}
use mr_hide.Protocols.Strings.{
  type_of, same_type, IsPut, IsPut-released, IsOptional, FieldReleased-kept,
}
use mr_hide.Protocols.Responses.Items.{
  dialect, is_empty_string, required, optional, recursive, transform_inner_json_field,
  transform_call, transform_custom_call,
}
use mr_hide.Protocols.Responses.Released.{
  is_call, InnerReleased, Arguments, arguments_text, no_arguments, Item, call_item, custom_item,
}
use mr_hide.Protocols.Responses.Rules.{
  typed-kept, Done, bind, weaken, give, fetch, required-Meets, optional-Meets, tree-Meets,
}
use mr_hide.Protocols.Responses.Parts.{IsUpdated, IsUpdated-put}

module _ {S : Type 0} (c : Callback S) (l : BodyLibrary) where
  abbrev pub Inner : ContentKind → Json → Type 0
  Inner kind v = (t : Text) × (v ≡ string t) × InnerReleased l c.Good kind t

  pub transform_inner_json_field-Meets :
      (key : Text) (kind : ContentKind) (fs : Fields)
      → Done c
          (IsUpdated key (Inner kind) fs)
          (transform_inner_json_field l c.transform key kind fs)
  unfolding transform_inner_json_field
  transform_inner_json_field-Meets key kind fs =
      bind c _ Goal (lift (string_of (responses tool_arguments_invalid) (get_or_null key fs))) _
        (fetch c (string_of (responses tool_arguments_invalid) (get_or_null key fs)))
        (λ value _. bind c _ Goal (lift (l.encode value)) _ (fetch c (l.encode value)) (λ encoded _.
          bind c _ Goal
            (lift (raise_if (ltb max_json_bytes (length encoded)) (responses json_size_invalid))) _
            (fetch c (raise_if (ltb max_json_bytes (length encoded)) (responses json_size_invalid)))
            (λ u _.
              bind c _ Goal
                (lift (
                  checked_document dialect tool_arguments_invalid
                    (l.loads_text (document_hooks dialect) value)))
                _
                (fetch c (
                  checked_document dialect tool_arguments_invalid
                    (l.loads_text (document_hooks dialect) value)))
                (λ inner _.
                  bind c (TreeReleased c.Good true kind) Goal
                    (recursive l c.transform true kind (object inner)) _
                    (tree-Meets c l true kind (object inner))
                    (λ done good.
                      bind c (λ payload. dump dialect l done ≡ ok payload) Goal
                        (lift (dump dialect l done)) _ (fetch c (dump dialect l done))
                        (λ payload dumped.
                          bind c (λ t. l.decode payload ≡ ok t) Goal (lift (l.decode payload)) _
                            (fetch c (l.decode payload))
                            (λ t decoded. give c Goal (put_field key (string t) fs) (
                              IsUpdated-put key (Inner kind) (string t) fs
                                (t, refl, (done, payload, good, dumped, decoded))))))))))
    where
      Goal : Fields → Type 0
      Goal gs = IsUpdated key (Inner kind) fs gs

  abbrev pub IsArgued : Bool → Fields → Fields → Type 0
  unfolding text
  IsArgued incomplete fs gs = Arguments l c.Good incomplete gs × OthersKept (text "arguments") fs gs

  argued :
      (incomplete : Bool) (fs gs : Fields)
      → IsUpdated (text "arguments") (Inner tool_argument) fs gs
      → IsArgued incomplete fs gs
  unfolding IsArgued text
  argued incomplete fs gs ((w, there, (t, same, good)), kept) =
      (arguments_text (there ∙ ap some same) good, kept)

  no_text : (v : Json) → is_empty_string v ≡ true → v ≡ string []
  no_text (string []) e = refl
  no_text (string (d ∷ t)) e = cc
  no_text null e = cc
  no_text (boolean b) e = cc
  no_text (int n) e = cc
  no_text (negative n) e = cc
  no_text (float t) e = cc
  no_text (array vs) e = cc
  no_text (object gs) e = cc

  inner_arguments :
      (incomplete : Bool) (fs : Fields)
      → Done c
          (IsArgued incomplete fs)
          (transform_inner_json_field l c.transform (text "arguments") tool_argument fs)
  inner_arguments incomplete fs =
      weaken c (IsUpdated (text "arguments") (Inner tool_argument) fs) (IsArgued incomplete fs)
        (transform_inner_json_field l c.transform (text "arguments") tool_argument fs)
        (argued incomplete fs)
        (transform_inner_json_field-Meets (text "arguments") tool_argument fs)

  Arguments-kept :
      (incomplete : Bool) (k : Text) (fs gs : Fields)
      → text_eq k (text "arguments") ≡ false
      → OthersKept k fs gs
      → Arguments l c.Good incomplete fs
      → Arguments l c.Good incomplete gs
  Arguments-kept incomplete k fs gs other kept (arguments_text there good) =
      arguments_text (kept (text "arguments") other ∙ there) good
  Arguments-kept true k fs gs other kept (no_arguments e) =
      no_arguments (get_or_null-kept k (text "arguments") fs gs other kept ∙ e)

  arguments-Meets :
      (incomplete : Bool) (fs : Fields)
      → Done c (IsArgued incomplete fs) (
          if incomplete && is_empty_string (get_or_null (text "arguments") fs)
          then pure fs
          else transform_inner_json_field l c.transform (text "arguments") tool_argument fs)
  unfolding IsArgued
  arguments-Meets true fs =
      elim (Bool-cases (is_empty_string (get_or_null (text "arguments") fs))) [
        | inl e ↦ rw e (
            give c (IsArgued true fs) fs
              (no_arguments (no_text (get_or_null (text "arguments") fs) e), λ j other. refl))
        | inr e ↦ rw e (inner_arguments true fs)
      ]
  arguments-Meets false fs = inner_arguments false fs

  pub transform_call-Meets :
      (incomplete : Bool) (fs : Fields)
      → is_call (type_of fs) ≡ true
      → Done c (Item l c.Good incomplete) (transform_call l c.transform incomplete fs)
  unfolding transform_call text text_eq IsArgued
  transform_call-Meets incomplete fs typed =
      bind c (IsArgued incomplete fs) (Item l c.Good incomplete) _ _ (arguments-Meets incomplete fs)
        (λ done a.
          weaken c (IsOptional c.Good (text "name") tool_definition done) (Item l c.Good incomplete)
            (optional l c.transform (text "name") tool_definition done)
            (λ gs b.
              call_item
                (typed-kept is_call
                  (same_type (text "name") done gs refl b.1
                    ∙ same_type (text "arguments") fs done refl a.1)
                  typed)
                (Arguments-kept incomplete (text "name") done gs refl b.1 a.0) b.0)
            (optional-Meets c l (text "name") tool_definition done))

  pub transform_custom_call-Meets :
      (incomplete : Bool) (fs : Fields)
      → is_typed (text "custom_tool_call") (type_of fs) ≡ true
      → Done c (Item l c.Good incomplete) (transform_custom_call l c.transform fs)
  unfolding transform_custom_call text text_eq
  transform_custom_call-Meets incomplete fs typed =
      bind c (IsPut c.Good (text "input") tool_argument fs) (Item l c.Good incomplete)
        (required l c.transform (text "input") tool_argument fs) _
        (required-Meets c l (text "input") tool_argument fs)
        (λ done put.
          let kept = put_field-OthersKept (text "input") (string put.0) fs done put.1 in
          weaken c (IsOptional c.Good (text "name") tool_definition done) (Item l c.Good incomplete)
            (optional l c.transform (text "name") tool_definition done)
            (λ gs b.
              custom_item
                (typed-kept (is_typed (text "custom_tool_call"))
                  (same_type (text "name") done gs refl b.1
                    ∙ same_type (text "input") fs done refl kept)
                  typed)
                (FieldReleased-kept c.Good (text "name") (text "input") tool_argument done gs refl
                  b.1 (IsPut-released c.Good (text "input") tool_argument fs done put))
                b.0)
            (optional-Meets c l (text "name") tool_definition done))
