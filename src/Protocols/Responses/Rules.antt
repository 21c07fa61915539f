-- ===== src/Protocols/Responses/Rules.antt =====
-- Contracts of what src/mr_hide/protocols/responses/json_body.py is made of. Its exceptions can be any,
-- since a type that is a list or a dictionary raises `TypeError`.
use mr_hide.Protocols.Walk.{Walk, ◌>>=◌, lift, pure, raise, each}
use mr_hide.Prelude.{Text, ◌≡◌, refl, ap, ◌∙◌, Bool, true}
use mr_hide.Errors.{Reason, Error, responses, Result, err, ok}
use mr_hide.Errors.Raises.{Ends, any_error, Ends-of_ok, Ends-map}
use mr_hide.Json.{Json, Items, nil, cons, Fields}
use mr_hide.Policy.{ContentKind}
use mr_hide.Protocols.Documents.{BodyLibrary}
use mr_hide.Protocols.Contract.{
  EveryItem, Meets, >>=-Meets, pure-Meets, raise-Meets, lift-Meets, Callback,
}
use mr_hide.Protocols.Tree.{call_transform}
use mr_hide.Protocols.Released.{TreeReleased, call_transform-Meets, transform_tree-Meets}
use mr_hide.Protocols.Strings.{IsPut, IsOptional, required_string-Meets, optional_string-Meets}
use mr_hide.Protocols.Responses.Items.{is_responses, dialect, required, optional, recursive}

known-own : (r : Reason) → is_responses (responses r) ≡ true
known-own r = refl

pub typed-kept : (f : Json → Bool) {b : Bool} {v w : Json} → v ≡ w → f w ≡ b → f v ≡ b
typed-kept f same h = ap f same ∙ h

module _ {S : Type 0} (c : Callback S) where
  abbrev pub Done : {A : Type 0} → (A → Type 0) → Walk S A → Type 0
  Done Q w = Meets c.course any_error Q w

  pub bind :
      {A B : Type 0} (Q : A → Type 0) (R : B → Type 0) (first : Walk S A) (next : A → Walk S B)
      → Done Q first
      → ((a : A) → Q a → Done R (next a))
      → Done R (first >>= next)
  bind Q R first next h k = >>=-Meets c.course any_error c.steps Q R first next h k

  pub weaken :
      {A : Type 0} (Q R : A → Type 0) (w : Walk S A) → ((a : A) → Q a → R a) → Done Q w → Done R w
  weaken Q R w f h s r = ((h s r).0, Ends-map any_error Q R (w s).1 f (h s r).1)

  pub give : {A : Type 0} (Q : A → Type 0) (a : A) → Q a → Done Q (pure a)
  give Q a h = pure-Meets c.course any_error c.steps Q a h

  pub refuse : {A : Type 0} (Q : A → Type 0) (e : Error) → Done Q (raise e)
  refuse Q e = raise-Meets c.course any_error c.steps Q e refl

  pub fetch : {A : Type 0} (r : Result A) → Done (λ a. r ≡ ok a) (lift r)
  fetch r =
      lift-Meets c.course any_error c.steps (λ a. r ≡ ok a) r
        (Ends-of_ok (λ a. r ≡ ok a) r (λ a same. same))

  any_of_own :
      {A : Type 0} (Q : A → Type 0) (r : Result A) → Ends is_responses Q r → Ends any_error Q r
  any_of_own Q (ok a) h = h
  any_of_own Q (err e) h = refl

  loosen : {A : Type 0} (Q : A → Type 0) (w : Walk S A) → Meets c.course is_responses Q w → Done Q w
  loosen Q w h s r = ((h s r).0, any_of_own Q (w s).1 (h s r).1)

  pub required-Meets :
      (l : BodyLibrary) (key : Text) (kind : ContentKind) (fs : Fields)
      → Done (IsPut c.Good key kind fs) (required l c.transform key kind fs)
  required-Meets l key kind fs =
      loosen (IsPut c.Good key kind fs) (required l c.transform key kind fs) (
        required_string-Meets c.course c.steps dialect known-own c.Good c.transform c.released key
          kind fs)

  pub optional-Meets :
      (l : BodyLibrary) (key : Text) (kind : ContentKind) (fs : Fields)
      → Done (IsOptional c.Good key kind fs) (optional l c.transform key kind fs)
  optional-Meets l key kind fs =
      loosen (IsOptional c.Good key kind fs) (optional l c.transform key kind fs) (
        optional_string-Meets c.course c.steps dialect known-own c.Good c.transform c.released key
          kind fs)

  pub call-Meets :
      (t : Text) (kind : ContentKind)
      → Done (c.Good kind) (call_transform dialect c.transform t kind)
  call-Meets t kind =
      loosen (c.Good kind) (call_transform dialect c.transform t kind) (
        call_transform-Meets c.course c.steps dialect known-own c.Good c.transform c.released t
          kind)

  pub tree-Meets :
      (l : BodyLibrary) (keys : Bool) (kind : ContentKind) (v : Json)
      → Done (TreeReleased c.Good keys kind) (recursive l c.transform keys kind v)
  tree-Meets l keys kind v =
      loosen (TreeReleased c.Good keys kind) (recursive l c.transform keys kind v) (
        transform_tree-Meets c.course c.steps dialect known-own c.Good c.transform c.released keys
          kind v)

  -- A loop whose body takes every item.
  pub loop :
      (Q : Json → Type 0) (body : Json → Walk S Json) (vs : Items)
      → ((v : Json) → Done Q (body v))
      → Done (EveryItem Q) (each body vs)
  unfolding each
  loop Q body nil h = give (EveryItem Q) nil tt
  loop Q body (cons v vs) h = bind Q (EveryItem Q) (body v) _ (h v) (λ w good.
      bind (EveryItem Q) (EveryItem Q) (each body vs) _ (loop Q body vs h)
        (λ ws rest. give (EveryItem Q) (cons w ws) (good, rest)))
