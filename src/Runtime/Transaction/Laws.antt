-- ===== src/Runtime/Transaction/Laws.antt =====
-- What `PrivacyTransaction` of src/mr_hide/runtime/privacy.py promises.
use mr_hide.Prelude.{
  Bool-cases, Text, ℕ, ◌≡◌, refl, sym, ap, subst, ◌∙◌, ◌≢◌, inl, inr, true, false, not, none, List,
  arith,
}
use mr_hide.Errors.{
  policy_mode_mismatch, transaction_already_committed, Error, privacy, vault, runtime, responses,
  messages, malformed, builtin, Result, err, ok, >>=-eq-ok, after_guard, ok-injective, err≢ok,
}
use mr_hide.Policy.{
  SubstitutionMode, to_provider, ContentKind, conversation, protect, same_mode, mode_of,
  decide_policy,
}
use mr_hide.Policy.Laws.{decide_policy-conversation, same_mode-eq}
use mr_hide.Privacy.Unicode.{Unicode}
use mr_hide.Privacy.Models.{DetectedSpan}
use mr_hide.Privacy.Scoring.{character_scorer}
use mr_hide.Privacy.Mapping.Transform.{TransformationResult, transform_text}
use mr_hide.Runtime.Transaction.{
  Transaction, as_runtime_error, protected_text, with_result, apply_action, decided, transform,
}

as_runtime_error-err : {A : Type 0} {a : A} (e : Error) → as_runtime_error (err e) ≢ ok a
as_runtime_error-err (privacy reason) h = err≢ok h
as_runtime_error-err (vault reason) h = err≢ok h
as_runtime_error-err (runtime reason) h = err≢ok h
as_runtime_error-err builtin h = err≢ok h
as_runtime_error-err (responses reason) h = err≢ok h
as_runtime_error-err (messages reason) h = err≢ok h
as_runtime_error-err malformed h = err≢ok h

module _ (u : Unicode) (ipv6 : ℕ → Text) (detect : Text → Result (List DetectedSpan)) where
  with_result-ok :
      (x : Transaction) (m : Result TransformationResult) {out : Text}
      → (with_result u ipv6 detect x m).1 ≡ ok out
      → (result : TransformationResult) × (m ≡ ok result)
        × (out ≡ result.text)
        × ((with_result u ipv6 detect x m).0 ≡ record x { mappings = result.mappings })
  with_result-ok x (ok result) h = (result, refl, sym (ok-injective h), refl)
  with_result-ok x (err e) h = absurd (as_runtime_error-err e h)

  pub protected_text-ok :
      (x : Transaction) (t : Text) (mode : SubstitutionMode) (result : TransformationResult)
      → protected_text u ipv6 detect x t mode ≡ ok result
      → (mode ≡ x.state.mode)
        × ((detections : List DetectedSpan) × (detect t ≡ ok detections)
            × (transform_text u ipv6 character_scorer mode x.mappings t detections ≡ ok result))
  unfolding protected_text
  protected_text-ok x t mode result h =
      let (agrees, k) =
        after_guard (not (same_mode mode x.state.mode)) (runtime policy_mode_mismatch) _ h in
      let (detections, e, q) = >>=-eq-ok (detect t) _ k in
      (same_mode-eq mode x.state.mode (ground arith), (detections, e, q))

  transform-protects :
      (x : Transaction) (t : Text)
      → x.direction ≡ to_provider
      → x.state.bypassed ≡ false
      → x.committed ≡ false
      → transform u ipv6 detect x t conversation
        ≡ with_result u ipv6 detect x (protected_text u ipv6 detect x t (mode_of x.policy))
  transform-protects x t d b c =
      opened ∙ ap (decided u ipv6 detect x t) decision ∙ (unfold decided apply_action in refl)
    where
      opened :
          transform u ipv6 detect x t conversation
          ≡ decided u ipv6 detect x t (decide_policy x.policy x.direction conversation)
      opened = unfold transform in (rw (c, b) refl)

      decision :
          decide_policy x.policy x.direction conversation
          ≡ record { action = protect; substitution_mode = mode_of x.policy; warning_code = none }
      decision =
          ap (λ y. decide_policy x.policy y conversation) d ∙ decide_policy-conversation x.policy

  transform-open :
      (x : Transaction) (t : Text) (kind : ContentKind) {out : Text}
      → (transform u ipv6 detect x t kind).1 ≡ ok out
      → x.committed ≡ false
  transform-open x t kind {out} h = elim (Bool-cases x.committed) [
    | inl c ↦ absurd (err≢ok (sym (ap (λ m. m.1) (closed c)) ∙ h))
    | inr c ↦ c
  ]
    where
      closed :
          x.committed ≡ true
          → transform u ipv6 detect x t kind ≡ (x, err (runtime transaction_already_committed))
      closed c = unfold transform in (rw c refl)

  -- Text of a conversation that is not bypassed leaves for the provider only as what
  -- `transform_text` makes of it with the mappings of the transaction, in the conversation's mode,
  -- and what this mapped is in the transaction from then on. This is so under every policy.
  pub transform-conversation :
      (x : Transaction) (t out : Text)
      → x.direction ≡ to_provider
      → x.state.bypassed ≡ false
      → (transform u ipv6 detect x t conversation).1 ≡ ok out
      → (detections : List DetectedSpan) × (result : TransformationResult) × (detect t
          ≡ ok detections)
        × (transform_text u ipv6 character_scorer x.state.mode x.mappings t detections ≡ ok result)
        × (out ≡ result.text)
        × ((transform u ipv6 detect x t conversation).0 ≡ record x { mappings = result.mappings })
  transform-conversation x t out d b h =
      let whole = transform-protects x t d b (transform-open x t conversation h) in
      let (result, made, same, after) =
        with_result-ok x (protected_text u ipv6 detect x t (mode_of x.policy))
          (sym (ap (λ m. m.1) whole) ∙ h) in
      let (mode, (detections, detected, transformed)) =
        protected_text-ok x t (mode_of x.policy) result made in
      (
        detections,
        result,
        detected,
        subst (λ m. transform_text u ipv6 character_scorer m x.mappings t detections ≡ ok result)
            mode transformed,
        same,
        ap (λ m. m.0) whole ∙ after,
      )
