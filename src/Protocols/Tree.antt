-- ===== src/Protocols/Tree.antt =====
-- The transformation of texts and of JSON values in src/mr_hide/protocols/responses/json_body.py and
-- src/mr_hide/protocols/messages/json_body.py.
use mr_hide.Protocols.Walk.{Walk, ◌>>=◌, ◌>>◌, lift, pure, TextTransform}
use mr_hide.Prelude.{Text, Bool, true, false}
use mr_hide.Errors.{transformed_key_collision, content_invalid, raise_if}
use mr_hide.Json.{
  Json, null, string, array, object, Items, nil, cons, Fields, end, field, has_field, put_field,
  get_or_null,
}
use mr_hide.Policy.{ContentKind}
use mr_hide.Protocols.Documents.{Dialect, string_of, as_own}

-- What is left as it is at `None`.
abbrev pub unless_null : {S A : Type 0} → Json → A → Walk S A → Walk S A
unless_null null a w = pure a
unless_null v a w = w

module _ {S : Type 0} (d : Dialect) (transform : TextTransform S) where
  unfoldable pub call_transform : Text → ContentKind → Walk S Text
  call_transform t kind s = let (s', outcome) = transform t kind s in (s', as_own d outcome)

  -- the name of a field, which is transformed if `keys` is set
  abbrev pub key_of : Bool → ContentKind → Text → Walk S Text
  key_of true kind k = call_transform k kind
  key_of false kind k = pure k

  unfoldable mutual
    pub transform_tree : Bool → ContentKind → Json → Walk S Json
    transform_tree keys kind (string t) = do u ← call_transform t kind; pure (string u)
    transform_tree keys kind (array vs) = do ws ← transform_items keys kind vs; pure (array ws)
    transform_tree keys kind (object fs) = do
      gs ← transform_fields keys kind fs end
      pure (object gs)
    transform_tree keys kind v = pure v

    pub transform_items : Bool → ContentKind → Items → Walk S Items
    transform_items keys kind nil = pure nil
    transform_items keys kind (cons v vs) = do
      w ← transform_tree keys kind v
      ws ← transform_items keys kind vs
      pure (cons w ws)

    pub transform_fields : Bool → ContentKind → Fields → Fields → Walk S Fields
    transform_fields keys kind end seen = pure seen
    transform_fields keys kind (field k v fs) seen = do
      new_key ← key_of keys kind k
      lift (raise_if (has_field new_key seen) (d.fail transformed_key_collision))
      w ← transform_tree keys kind v
      transform_fields keys kind fs (put_field new_key w seen)

  unfoldable pub required_string : Text → ContentKind → Fields → Walk S Fields
  required_string key kind fs = do
    t ← lift (string_of (d.fail content_invalid) (get_or_null key fs))
    u ← call_transform t kind
    pure (put_field key (string u) fs)

  -- a missing key and `None` are passed over
  unfoldable pub optional_string : Text → ContentKind → Fields → Walk S Fields
  optional_string key kind fs = unless_null (get_or_null key fs) fs (required_string key kind fs)
