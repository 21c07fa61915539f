-- ===== src/Runtime/Transaction/Course.antt =====
-- Many calls of `PrivacyTransaction` of src/mr_hide/runtime/privacy.py.
use mr_hide.Prelude.{
  Bool-cases, Text, ℕ, ◌≡◌, refl, sym, subst, ◌∙◌, inl, inr, Option, none, some, List,
}
use mr_hide.Errors.{transaction_already_committed, runtime, Result, err, ok}
use mr_hide.Policy.{
  SubstitutionMode, ContentKind, PolicyAction, protect, restore_known, pass_through, WarningCode,
  decide_policy,
}
use mr_hide.Privacy.Unicode.{Unicode}
use mr_hide.Privacy.Models.{DetectedSpan}
use mr_hide.Privacy.Scoring.{character_scorer}
use mr_hide.Privacy.Mapping.Transform.{TransformationResult}
use mr_hide.Privacy.Mapping.Growth.{Grows, Grows-refl, Grows-trans, transform_text-Grows}
use mr_hide.Runtime.Transaction.{
  Transaction, warned, protected_text, with_result, apply_action, decided, transform,
}
use mr_hide.Runtime.Transaction.Laws.{protected_text-ok}

-- The state that the transaction began with stays, and its mappings grow.
pub record Extends (x y : Transaction) : Type 0 where
  pub same_state : y.state ≡ x.state
  pub same_policy : y.policy ≡ x.policy
  pub same_direction : y.direction ≡ x.direction
  pub same_committed : y.committed ≡ x.committed
  pub grown : Grows x.state.mode x.mappings y.mappings

Extends-refl : (x : Transaction) → Extends x x
Extends-refl x = record {
  same_state = refl;
  same_policy = refl;
  same_direction = refl;
  same_committed = refl;
  grown = Grows-refl x.state.mode x.mappings;
}

Extends-trans : (x y z : Transaction) → Extends x y → Extends y z → Extends x z
Extends-trans x y z e f = record {
  same_state = f.same_state ∙ e.same_state;
  same_policy = f.same_policy ∙ e.same_policy;
  same_direction = f.same_direction ∙ e.same_direction;
  same_committed = f.same_committed ∙ e.same_committed;
  grown =
      Grows-trans x.state.mode x.mappings y.mappings z.mappings e.grown
        (subst (λ s. Grows s.mode y.mappings z.mappings) e.same_state f.grown);
}

warned-Extends : (x : Transaction) (w : Option WarningCode) → Extends x (warned x w)
warned-Extends x none = Extends-refl x
warned-Extends x (some code) = record {
  same_state = refl;
  same_policy = refl;
  same_direction = refl;
  same_committed = refl;
  grown = Grows-refl x.state.mode x.mappings;
}

module _ (u : Unicode) (ipv6 : ℕ → Text) (detect : Text → Result (List DetectedSpan)) where
  with_result-Extends :
      (x : Transaction) (t : Text) (mode : SubstitutionMode) (m : Result TransformationResult)
      → protected_text u ipv6 detect x t mode ≡ m
      → Extends x (with_result u ipv6 detect x m).0
  with_result-Extends x t mode (err e) h = Extends-refl x
  with_result-Extends x t mode (ok result) h =
      let (agrees, (detections, _, made)) = protected_text-ok u ipv6 detect x t mode result h in
      record {
        same_state = refl;
        same_policy = refl;
        same_direction = refl;
        same_committed = refl;
        grown =
            subst (λ m. Grows m x.mappings result.mappings) agrees
              (transform_text-Grows u ipv6 character_scorer mode t x.mappings detections result
                made);
      }

  apply_action-Extends :
      (x : Transaction) (t : Text) (action : PolicyAction) (mode : SubstitutionMode)
      → Extends x (apply_action u ipv6 detect x t action mode).0
  unfolding apply_action
  apply_action-Extends x t pass_through mode = Extends-refl x
  apply_action-Extends x t restore_known mode = Extends-refl x
  apply_action-Extends x t protect mode =
      with_result-Extends x t mode (protected_text u ipv6 detect x t mode) refl

  transform-Extends :
      (x : Transaction) (t : Text) (kind : ContentKind)
      → Extends x (transform u ipv6 detect x t kind).0
  unfolding transform decided
  transform-Extends x t kind = elim (Bool-cases x.committed) [
    | inl c ↦
        let e : transform u ipv6 detect x t kind
            ≡ (x, err (runtime transaction_already_committed)) =
          rw c refl in
        subst (λ m. Extends x m.0) (sym e) (Extends-refl x)
    | inr c ↦ elim (Bool-cases x.state.bypassed) [
      | inl b ↦
          let e : transform u ipv6 detect x t kind ≡ (x, ok t) = rw (c, b) refl in
          subst (λ m. Extends x m.0) (sym e) (Extends-refl x)
      | inr b ↦
          let d = decide_policy x.policy x.direction kind in
          let e : transform u ipv6 detect x t kind
              ≡ apply_action u ipv6 detect (warned x d.warning_code) t d.action
                  d.substitution_mode =
            rw (c, b) refl in
          subst (λ m. Extends x m.0) (sym e)
            (Extends-trans x (warned x d.warning_code)
              (apply_action u ipv6 detect (warned x d.warning_code) t d.action
                d.substitution_mode).0
              (warned-Extends x d.warning_code)
              (apply_action-Extends (warned x d.warning_code) t d.action d.substitution_mode))
    ]
  ]

  -- A transaction in the course of calls of `transform`, those that raise included.
  pub data Run : Transaction → Transaction → Type 0 where
    idle : {x : Transaction} → Run x x
    call :
        {x y : Transaction} (t : Text) (kind : ContentKind)
        → Run (transform u ipv6 detect x t kind).0 y
        → Run x y

  -- However often `transform` is called, and whether it raises or not, the transaction keeps the
  -- state that it began with, its policy and its direction, and is committed only if it was; its
  -- mappings keep every record where it is, with new ones, all of the conversation's mode, behind.
  pub Run-Extends : {x y : Transaction} → Run x y → Extends x y
  Run-Extends {x} idle = Extends-refl x
  Run-Extends {x} {y} (call t kind run) =
      Extends-trans x (transform u ipv6 detect x t kind).0 y (transform-Extends x t kind)
        (Run-Extends run)
