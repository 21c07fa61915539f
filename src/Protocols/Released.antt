-- ===== src/Protocols/Released.antt =====
-- What the transformations of src/mr_hide/protocols leave in the place of texts and of JSON values.
use mr_hide.Prelude.{Bool-cases, Text, ◌≡◌, inl, inr, Bool, true, false, text_eq}
use mr_hide.Json.{
  Json, null, boolean, int, negative, float, string, array, object, Items, nil, cons, Fields, end,
  field, has_field, put_field,
}
use mr_hide.Policy.{ContentKind}
use mr_hide.Protocols.Walk.{lift, TextTransform}
use mr_hide.Errors.{
  Reason, transformed_key_collision, text_transform_failed, Result, err, ok, raise_if,
}
use mr_hide.Errors.Raises.{Ends, any_error}
use mr_hide.Protocols.Documents.{Dialect, as_own}
use mr_hide.Protocols.Contract.{Course, IsKept, Meets, >>=-Meets, pure-Meets, lift-Meets}
use mr_hide.Protocols.Tree.{
  call_transform, key_of, transform_tree, transform_items, transform_fields,
}

module _ (P : ContentKind → Text → Type 0) where
  abbrev pub KeyReleased : Bool → ContentKind → Text → Type 0
  KeyReleased true kind k = P kind k
  KeyReleased false kind k = Unit

  abbrev mutual
    -- Every text of the value, and every key if the flag is set, has the property.
    pub TreeReleased : Bool → ContentKind → Json → Type 0
    TreeReleased keys kind (string t) = P kind t
    TreeReleased keys kind (array vs) = ItemsReleased keys kind vs
    TreeReleased keys kind (object fs) = FieldsReleased keys kind fs
    TreeReleased keys kind v = Unit

    pub ItemsReleased : Bool → ContentKind → Items → Type 0
    ItemsReleased keys kind nil = Unit
    ItemsReleased keys kind (cons v vs) = TreeReleased keys kind v × ItemsReleased keys kind vs

    pub FieldsReleased : Bool → ContentKind → Fields → Type 0
    FieldsReleased keys kind end = Unit
    FieldsReleased keys kind (field k v fs) =
        KeyReleased keys kind k × TreeReleased keys kind v × FieldsReleased keys kind fs

  FieldsReleased-put :
      (keys : Bool) (kind : ContentKind) (k : Text) (v : Json) (fs : Fields)
      → KeyReleased keys kind k
      → TreeReleased keys kind v
      → FieldsReleased keys kind fs
      → FieldsReleased keys kind (put_field k v fs)
  unfolding put_field
  FieldsReleased-put keys kind k v end named done h = (named, done, tt)
  FieldsReleased-put keys kind k v (field j w fs) named done h = elim (Bool-cases (text_eq j k)) [
    | inl e ↦ rw e (h.0, done, h.2)
    | inr e ↦ rw e (h.0, h.1, FieldsReleased-put keys kind k v fs named done h.2)
  ]

module _ {S : Type 0} (course : Course S) (steps : IsKept course) (d : Dialect)
    (own : (r : Reason) → d.is_own (d.fail r) ≡ true) (P : ContentKind → Text → Type 0)
    (transform : TextTransform S)
    (released : (t : Text) (kind : ContentKind)
      → Meets course any_error (P kind) (transform t kind)) where
  as_own-Ends :
      (kind : ContentKind) (r : Result Text)
      → Ends any_error (P kind) r
      → Ends d.is_own (P kind) (as_own d r)
  unfolding as_own
  as_own-Ends kind (ok t) h = h
  as_own-Ends kind (err e) h = elim (Bool-cases (d.is_own e)) [
    | inl mine ↦ rw mine mine
    | inr other ↦ rw other (own text_transform_failed)
  ]

  pub call_transform-Meets :
      (t : Text) (kind : ContentKind)
      → Meets course d.is_own (P kind) (call_transform d transform t kind)
  unfolding call_transform
  call_transform-Meets t kind s r =
      let (moved, ends) = released t kind s r in
      (moved, as_own-Ends kind (transform t kind s).1 ends)

  key_of-Meets :
      (keys : Bool) (kind : ContentKind) (k : Text)
      → Meets course d.is_own (KeyReleased P keys kind) (key_of d transform keys kind k)
  key_of-Meets true kind k = call_transform-Meets k kind
  key_of-Meets false kind k = pure-Meets course d.is_own steps (KeyReleased P false kind) k tt

  guard-released :
      (b : Bool) (r : Reason) → Meets course d.is_own (λ u. Unit) (lift (raise_if b (d.fail r)))
  guard-released b r =
      lift-Meets course d.is_own steps (λ u. Unit) (raise_if b (d.fail r)) (guard-Ends b)
    where
      guard-Ends : (c : Bool) → Ends d.is_own (λ u. Unit) (raise_if c (d.fail r))
      guard-Ends true = own r
      guard-Ends false = tt

  mutual
    unfolding transform_tree transform_items transform_fields

    pub transform_tree-Meets :
        (keys : Bool) (kind : ContentKind) (v : Json)
        → Meets course d.is_own (TreeReleased P keys kind) (transform_tree d transform keys kind v)
    transform_tree-Meets keys kind (string t) =
        >>=-Meets course d.is_own steps (P kind) (TreeReleased P keys kind)
          (call_transform d transform t kind) _ (call_transform-Meets t kind)
          (λ u good. pure-Meets course d.is_own steps (TreeReleased P keys kind) (string u) good)
    transform_tree-Meets keys kind (array vs) =
        >>=-Meets course d.is_own steps (ItemsReleased P keys kind) (TreeReleased P keys kind)
          (transform_items d transform keys kind vs) _ (transform_items-Meets keys kind vs)
          (λ ws good. pure-Meets course d.is_own steps (TreeReleased P keys kind) (array ws) good)
    transform_tree-Meets keys kind (object fs) =
        >>=-Meets course d.is_own steps (FieldsReleased P keys kind) (TreeReleased P keys kind)
          (transform_fields d transform keys kind fs end) _
          (transform_fields-Meets keys kind fs end tt)
          (λ gs good. pure-Meets course d.is_own steps (TreeReleased P keys kind) (object gs) good)
    transform_tree-Meets keys kind null =
        pure-Meets course d.is_own steps (TreeReleased P keys kind) null tt
    transform_tree-Meets keys kind (boolean b) =
        pure-Meets course d.is_own steps (TreeReleased P keys kind) (boolean b) tt
    transform_tree-Meets keys kind (int n) =
        pure-Meets course d.is_own steps (TreeReleased P keys kind) (int n) tt
    transform_tree-Meets keys kind (negative n) =
        pure-Meets course d.is_own steps (TreeReleased P keys kind) (negative n) tt
    transform_tree-Meets keys kind (float t) =
        pure-Meets course d.is_own steps (TreeReleased P keys kind) (float t) tt

    transform_items-Meets :
        (keys : Bool) (kind : ContentKind) (vs : Items)
        → Meets course d.is_own
            (ItemsReleased P keys kind)
            (transform_items d transform keys kind vs)
    transform_items-Meets keys kind nil =
        pure-Meets course d.is_own steps (ItemsReleased P keys kind) nil tt
    transform_items-Meets keys kind (cons v vs) =
        >>=-Meets course d.is_own steps (TreeReleased P keys kind) (ItemsReleased P keys kind)
          (transform_tree d transform keys kind v) _ (transform_tree-Meets keys kind v)
          (λ w good.
            >>=-Meets course d.is_own steps (ItemsReleased P keys kind) (ItemsReleased P keys kind)
              (transform_items d transform keys kind vs) _ (transform_items-Meets keys kind vs)
              (λ ws rest.
                pure-Meets course d.is_own steps (ItemsReleased P keys kind) (cons w ws)
                  (good, rest)))

    transform_fields-Meets :
        (keys : Bool) (kind : ContentKind) (fs seen : Fields)
        → FieldsReleased P keys kind seen
        → Meets course d.is_own
            (FieldsReleased P keys kind)
            (transform_fields d transform keys kind fs seen)
    transform_fields-Meets keys kind end seen h =
        pure-Meets course d.is_own steps (FieldsReleased P keys kind) seen h
    transform_fields-Meets keys kind (field k v fs) seen h =
        >>=-Meets course d.is_own steps (KeyReleased P keys kind) (FieldsReleased P keys kind)
          (key_of d transform keys kind k) _ (key_of-Meets keys kind k)
          (λ new_key named.
            >>=-Meets course d.is_own steps (λ u. Unit) (FieldsReleased P keys kind)
              (lift (raise_if (has_field new_key seen) (d.fail transformed_key_collision))) _
              (guard-released (has_field new_key seen) transformed_key_collision)
              (λ u _.
                >>=-Meets course d.is_own steps (TreeReleased P keys kind)
                  (FieldsReleased P keys kind) (transform_tree d transform keys kind v) _
                  (transform_tree-Meets keys kind v)
                  (λ w good.
                    transform_fields-Meets keys kind fs (put_field new_key w seen)
                      (FieldsReleased-put P keys kind new_key w seen named good h))))
