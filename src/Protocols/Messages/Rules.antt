-- ===== src/Protocols/Messages/Rules.antt =====
-- Contracts of what src/mr_hide/protocols/messages/json_body.py is made of.
use mr_hide.Protocols.Released.{TreeReleased, call_transform-Meets, transform_tree-Meets}
use mr_hide.Protocols.Strings.{IsPut, IsOptional, required_string-Meets, optional_string-Meets}
use mr_hide.Protocols.Messages.Blocks.{is_messages, dialect, required, optional, json_tree}
use mr_hide.Protocols.Walk.{Walk, ◌>>=◌, lift, pure, object_or}
use mr_hide.Prelude.{Text, ◌≡◌, refl, Bool, true, false}
use mr_hide.Errors.{Reason, messages, raise_if}
use mr_hide.Errors.Raises.{Ends, Ends-map}
use mr_hide.Json.{
  Json, null, boolean, int, negative, float, string, array, object, Items, nil, cons, Fields,
}
use mr_hide.Policy.{ContentKind}
use mr_hide.Protocols.Documents.{object_of, string_of}
use mr_hide.Protocols.Contract.{
  EveryItem, Meets, >>=-Meets, pure-Meets, raise-Meets, lift-Meets, Callback,
}
use mr_hide.Protocols.Tree.{call_transform}

pub known-own : (r : Reason) → is_messages (messages r) ≡ true
known-own r = refl

pub object_of-Ends :
    (r : Reason) (v : Json) → Ends is_messages (λ fs. v ≡ object fs) (object_of (messages r) v)
object_of-Ends r null = refl
object_of-Ends r (boolean b) = refl
object_of-Ends r (int n) = refl
object_of-Ends r (negative n) = refl
object_of-Ends r (float t) = refl
object_of-Ends r (string t) = refl
object_of-Ends r (array vs) = refl
object_of-Ends r (object fs) = refl

pub string_of-Ends :
    (r : Reason) (v : Json) → Ends is_messages (λ t. v ≡ string t) (string_of (messages r) v)
string_of-Ends r null = refl
string_of-Ends r (boolean b) = refl
string_of-Ends r (int n) = refl
string_of-Ends r (negative n) = refl
string_of-Ends r (float t) = refl
string_of-Ends r (string t) = refl
string_of-Ends r (array vs) = refl
string_of-Ends r (object fs) = refl

module _ {S : Type 0} (c : Callback S) where
  pub bind :
      {A B : Type 0} (Q : A → Type 0) (R : B → Type 0) (first : Walk S A) (next : A → Walk S B)
      → Meets c.course is_messages Q first
      → ((a : A) → Q a → Meets c.course is_messages R (next a))
      → Meets c.course is_messages R (first >>= next)
  bind Q R first next h k = >>=-Meets c.course is_messages c.steps Q R first next h k

  pub weaken :
      {A : Type 0} (Q R : A → Type 0) (w : Walk S A)
      → ((a : A) → Q a → R a)
      → Meets c.course is_messages Q w
      → Meets c.course is_messages R w
  weaken Q R w f h s r = ((h s r).0, Ends-map is_messages Q R (w s).1 f (h s r).1)

  pub give : {A : Type 0} (Q : A → Type 0) (a : A) → Q a → Meets c.course is_messages Q (pure a)
  give Q a h = pure-Meets c.course is_messages c.steps Q a h

  pub lift-object :
      (r : Reason) (v : Json)
      → Meets c.course is_messages (λ fs. v ≡ object fs) (lift (object_of (messages r) v))
  lift-object r v =
      lift-Meets c.course is_messages c.steps (λ fs. v ≡ object fs) (object_of (messages r) v)
        (object_of-Ends r v)

  pub lift-string :
      (r : Reason) (v : Json)
      → Meets c.course is_messages (λ t. v ≡ string t) (lift (string_of (messages r) v))
  lift-string r v =
      lift-Meets c.course is_messages c.steps (λ t. v ≡ string t) (string_of (messages r) v)
        (string_of-Ends r v)

  pub lift-guard :
      (b : Bool) (r : Reason)
      → Meets c.course is_messages (λ u. Unit) (lift (raise_if b (messages r)))
  lift-guard b r =
      lift-Meets c.course is_messages c.steps (λ u. Unit) (raise_if b (messages r)) (guard-Ends b)
    where
      guard-Ends : (a : Bool) → Ends is_messages (λ u. Unit) (raise_if a (messages r))
      guard-Ends true = refl
      guard-Ends false = tt

  pub object_or-Meets :
      (r : Reason) (D Q : Json → Type 0) (body : Fields → Walk S Fields)
      → ((fs : Fields) → D (object fs) → Meets c.course is_messages (λ gs. Q (object gs)) (body fs))
      → (v : Json) → D v
      → Meets c.course is_messages Q (object_or (messages r) body v)
  object_or-Meets r D Q body h (object fs) given =
      bind (λ gs. Q (object gs)) Q (body fs) _ (h fs given) (λ gs good. give Q (object gs) good)
  object_or-Meets r D Q body h null given =
      raise-Meets c.course is_messages c.steps Q (messages r) refl
  object_or-Meets r D Q body h (boolean b) given =
      raise-Meets c.course is_messages c.steps Q (messages r) refl
  object_or-Meets r D Q body h (int n) given =
      raise-Meets c.course is_messages c.steps Q (messages r) refl
  object_or-Meets r D Q body h (negative n) given =
      raise-Meets c.course is_messages c.steps Q (messages r) refl
  object_or-Meets r D Q body h (float t) given =
      raise-Meets c.course is_messages c.steps Q (messages r) refl
  object_or-Meets r D Q body h (string t) given =
      raise-Meets c.course is_messages c.steps Q (messages r) refl
  object_or-Meets r D Q body h (array vs) given =
      raise-Meets c.course is_messages c.steps Q (messages r) refl

  pub required-Meets :
      (key : Text) (kind : ContentKind) (fs : Fields)
      → Meets c.course is_messages (IsPut c.Good key kind fs) (required c.transform key kind fs)
  required-Meets key kind fs =
      required_string-Meets c.course c.steps dialect known-own c.Good c.transform c.released key
        kind fs

  pub optional-Meets :
      (key : Text) (kind : ContentKind) (fs : Fields)
      → Meets c.course is_messages
          (IsOptional c.Good key kind fs)
          (optional c.transform key kind fs)
  optional-Meets key kind fs =
      optional_string-Meets c.course c.steps dialect known-own c.Good c.transform c.released key
        kind fs

  pub call-Meets :
      (t : Text) (kind : ContentKind)
      → Meets c.course is_messages (c.Good kind) (call_transform dialect c.transform t kind)
  call-Meets t kind =
      call_transform-Meets c.course c.steps dialect known-own c.Good c.transform c.released t kind

  pub tree-Meets :
      (kind : ContentKind) (v : Json)
      → Meets c.course is_messages (TreeReleased c.Good true kind) (json_tree c.transform kind v)
  tree-Meets kind v =
      transform_tree-Meets c.course c.steps dialect known-own c.Good c.transform c.released true
        kind v

pub EveryItem-Unit : (vs : Items) → EveryItem (λ v. Unit) vs
EveryItem-Unit nil = tt
EveryItem-Unit (cons v vs) = (tt, EveryItem-Unit vs)
