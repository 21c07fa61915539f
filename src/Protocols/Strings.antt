-- ===== src/Protocols/Strings.antt =====
-- What the transformation of one text under a key in src/mr_hide/protocols leaves of an object.
use mr_hide.Protocols.Walk.{lift, TextTransform}
use mr_hide.Prelude.{
  Text, ◌≡◌, refl, ap, ◌∙◌, ◌⊎◌, inl, inr, true, false, none, some, text, text_eq,
}
use mr_hide.Errors.{Reason, content_invalid}
use mr_hide.Errors.Raises.{Ends, any_error, Ends-map}
use mr_hide.Json.{
  Json, null, boolean, int, negative, float, string, array, object, Fields, get_field, put_field,
  get_or_null,
}
use mr_hide.Json.Laws.{get_field-put, OthersKept, put_field-OthersKept}
use mr_hide.Policy.{ContentKind}
use mr_hide.Protocols.Documents.{Dialect, string_of}
use mr_hide.Protocols.Contract.{Course, IsKept, Meets, >>=-Meets, pure-Meets, lift-Meets}
use mr_hide.Protocols.Tree.{unless_null, call_transform, required_string, optional_string}
use mr_hide.Protocols.Released.{call_transform-Meets}

unfoldable pub type_of : Fields → Json
unfolding text
type_of fs = get_or_null (text "type") fs

pub same_type :
    (k : Text) (fs gs : Fields)
    → text_eq k (text "type") ≡ false
    → OthersKept k fs gs
    → type_of gs ≡ type_of fs
unfolding type_of text
same_type k fs gs other kept =
    ap (λ o. elim o [ none ↦ null | some v ↦ v ]) (kept (text "type") other)

module _ (P : ContentKind → Text → Type 0) where
  -- A text with the property stands under the key.
  abbrev pub FieldReleased : Text → ContentKind → Fields → Type 0
  FieldReleased key kind fs = (u : Text) × (get_field key fs ≡ some (string u)) × P kind u

  -- The same, or there is nothing.
  abbrev pub OptionalReleased : Text → ContentKind → Fields → Type 0
  OptionalReleased key kind fs = (get_or_null key fs ≡ null) ⊎ FieldReleased key kind fs

  -- What the transformation under a key makes of an object.
  abbrev pub IsPut : Text → ContentKind → Fields → Fields → Type 0
  IsPut key kind fs gs = (u : Text) × (gs ≡ put_field key (string u) fs) × P kind u

  pub IsPut-released :
      (key : Text) (kind : ContentKind) (fs gs : Fields)
      → IsPut key kind fs gs
      → FieldReleased key kind gs
  IsPut-released key kind fs gs (u, same, good) =
      (u, ap (get_field key) same ∙ get_field-put key (string u) fs, good)

  -- What is left of an object by a transformation that passes over what is missing.
  abbrev pub IsOptional : Text → ContentKind → Fields → Fields → Type 0
  IsOptional key kind fs gs = OptionalReleased key kind gs × OthersKept key fs gs

  IsPut-IsOptional :
      (key : Text) (kind : ContentKind) (fs gs : Fields)
      → IsPut key kind fs gs
      → IsOptional key kind fs gs
  IsPut-IsOptional key kind fs gs put =
      (inr (IsPut-released key kind fs gs put), put_field-OthersKept key (string put.0) fs gs put.1)

module _ (P : ContentKind → Text → Type 0) where
  pub FieldReleased-kept :
      (k key : Text) (kind : ContentKind) (fs gs : Fields)
      → text_eq k key ≡ false
      → OthersKept k fs gs
      → FieldReleased P key kind fs
      → FieldReleased P key kind gs
  FieldReleased-kept k key kind fs gs other kept (u, there, good) =
      (u, kept key other ∙ there, good)

  pub OptionalReleased-kept :
      (k key : Text) (kind : ContentKind) (fs gs : Fields)
      → text_eq k key ≡ false
      → OthersKept k fs gs
      → OptionalReleased P key kind fs
      → OptionalReleased P key kind gs
  OptionalReleased-kept k key kind fs gs other kept (inl e) =
      inl (ap (λ o. elim o [ none ↦ null | some v ↦ v ]) (kept key other) ∙ e)
  OptionalReleased-kept k key kind fs gs other kept (inr r) =
      inr (FieldReleased-kept k key kind fs gs other kept r)

module _ {S : Type 0} (course : Course S) (steps : IsKept course) (d : Dialect)
    (own : (r : Reason) → d.is_own (d.fail r) ≡ true) (P : ContentKind → Text → Type 0)
    (transform : TextTransform S)
    (released : (t : Text) (kind : ContentKind)
      → Meets course any_error (P kind) (transform t kind)) where
  pub required_string-Meets :
      (key : Text) (kind : ContentKind) (fs : Fields)
      → Meets course d.is_own (IsPut P key kind fs) (required_string d transform key kind fs)
  unfolding required_string
  required_string-Meets key kind fs =
      >>=-Meets course d.is_own steps (λ t. Unit) (IsPut P key kind fs)
        (lift (string_of (d.fail content_invalid) (get_or_null key fs))) _
        (lift-Meets course d.is_own steps (λ t. Unit)
          (string_of (d.fail content_invalid) (get_or_null key fs))
          (string_of-Ends (get_or_null key fs)))
        (λ t _.
          >>=-Meets course d.is_own steps (P kind) (IsPut P key kind fs)
            (call_transform d transform t kind) _
            (call_transform-Meets course steps d own P transform released t kind)
            (λ u good.
              pure-Meets course d.is_own steps (IsPut P key kind fs) (put_field key (string u) fs)
                (u, refl, good)))
    where
      string_of-Ends : (v : Json) → Ends d.is_own (λ t. Unit) (string_of (d.fail content_invalid) v)
      string_of-Ends (string t) = tt
      string_of-Ends null = own content_invalid
      string_of-Ends (boolean b) = own content_invalid
      string_of-Ends (int n) = own content_invalid
      string_of-Ends (negative n) = own content_invalid
      string_of-Ends (float t) = own content_invalid
      string_of-Ends (array vs) = own content_invalid
      string_of-Ends (object fs) = own content_invalid

  put-IsOptional :
      (key : Text) (kind : ContentKind) (fs : Fields)
      → Meets course d.is_own (IsOptional P key kind fs) (required_string d transform key kind fs)
  put-IsOptional key kind fs s reached =
      let (moved, ends) = required_string-Meets key kind fs s reached in
      (
        moved,
        Ends-map d.is_own (IsPut P key kind fs) (IsOptional P key kind fs)
            (required_string d transform key kind fs s).1 (IsPut-IsOptional P key kind fs) ends,
      )

  unless_null-Meets :
      (key : Text) (kind : ContentKind) (fs : Fields) (v : Json)
      → get_or_null key fs ≡ v
      → Meets course d.is_own
          (IsOptional P key kind fs)
          (unless_null v fs (required_string d transform key kind fs))
  unless_null-Meets key kind fs null e =
      pure-Meets course d.is_own steps (IsOptional P key kind fs) fs (inl e, λ j other. refl)
  unless_null-Meets key kind fs (boolean b) e = put-IsOptional key kind fs
  unless_null-Meets key kind fs (int n) e = put-IsOptional key kind fs
  unless_null-Meets key kind fs (negative n) e = put-IsOptional key kind fs
  unless_null-Meets key kind fs (float t) e = put-IsOptional key kind fs
  unless_null-Meets key kind fs (string t) e = put-IsOptional key kind fs
  unless_null-Meets key kind fs (array vs) e = put-IsOptional key kind fs
  unless_null-Meets key kind fs (object gs) e = put-IsOptional key kind fs

  pub optional_string-Meets :
      (key : Text) (kind : ContentKind) (fs : Fields)
      → Meets course d.is_own (IsOptional P key kind fs) (optional_string d transform key kind fs)
  unfolding optional_string
  optional_string-Meets key kind fs = unless_null-Meets key kind fs (get_or_null key fs) refl
