-- ===== src/State/Lifecycle/Silent.antt =====
-- A result that stands for a state in src/mr_hide/state/lifecycle.py has no text.
use mr_hide.Prelude.{
  if◌then◌else◌, Bool-cases, ℕ, ◌≡◌, refl, sym, ap, ◌∙◌, inl, inr, Bool, true, false, none, arith,
}
use mr_hide.Errors.{
  expired, privacy, vault, runtime, responses, messages, malformed, builtin, Result, err, ok,
  err≢ok,
}
use mr_hide.State.Models.{ConversationState}
use mr_hide.State.Store.{Files, pure}
use mr_hide.State.Repository.{Codec, load, delete_if_inactive}
use mr_hide.State.Lifecycle.{
  expired_status, ConversationResult, stopped_result, blocked, Loaded, active, stopped, World,
  now_at, is_expired, retention_cutoff, status_of, load_or_status, deleted_or_reloaded, discard,
  unless_expired, load_active,
}
use mr_hide.State.Lifecycle.Release.{continue-ok}

-- A result that comes in place of a loaded state has no text.
abbrev pub IsSilent : Files × Result Loaded → Type 0
IsSilent m = (r : ConversationResult) → m.1 ≡ ok (stopped r) → r.text ≡ none

stopped-injective : {a b : ConversationResult} → ok (stopped a) ≡ ok (stopped b) → a ≡ b
stopped-injective e = cc

IsSilent-of :
    (files : Files) (a : ConversationResult) → a.text ≡ none → IsSilent (files, ok (stopped a))
IsSilent-of files a e r h = ap (λ q. q.text) (sym (stopped-injective h)) ∙ e

status_of-IsSilent : (n : ℕ) (m : Files × Result ConversationState) → IsSilent (status_of n m)
status_of-IsSilent n m r h = ground arith

module _ (codec : Codec) (world : World) (n : ℕ) where
  deleted_or_reloaded-IsSilent :
      (m : Files × Result Bool) → IsSilent (deleted_or_reloaded codec world n m)
  unfolding deleted_or_reloaded
  deleted_or_reloaded-IsSilent (files, ok true) r h =
      IsSilent-of files (stopped_result expired_status n expired) refl r h
  deleted_or_reloaded-IsSilent (files, ok false) r h =
      status_of-IsSilent n (load codec (world.env 2) n files) r h
  deleted_or_reloaded-IsSilent (files, err (vault reason)) r h =
      IsSilent-of files (blocked n reason) refl r h
  deleted_or_reloaded-IsSilent (files, err (privacy reason)) r h = absurd (err≢ok h)
  deleted_or_reloaded-IsSilent (files, err (runtime reason)) r h = absurd (err≢ok h)
  deleted_or_reloaded-IsSilent (files, err builtin) r h = absurd (err≢ok h)
  deleted_or_reloaded-IsSilent (files, err (responses reason)) r h = absurd (err≢ok h)
  deleted_or_reloaded-IsSilent (files, err (messages reason)) r h = absurd (err≢ok h)
  deleted_or_reloaded-IsSilent (files, err malformed) r h = absurd (err≢ok h)

  discard-IsSilent : (now : ℕ) (files : Files) → IsSilent (discard codec world n now files)
  unfolding discard
  discard-IsSilent now files r h =
      let (cutoff, _, e) =
        continue-ok (files, retention_cutoff now)
          (λ cutoff found.
            deleted_or_reloaded codec world n
              (delete_if_inactive codec (world.env 1) n cutoff found))
          h in
      deleted_or_reloaded-IsSilent (delete_if_inactive codec (world.env 1) n cutoff files) r
        (sym (ap (λ m. m.1) e) ∙ h)

  unless_expired-IsSilent :
      (loaded : Loaded) (files : Files)
      → IsSilent (files, ok loaded)
      → IsSilent (unless_expired codec world n loaded files)
  unfolding unless_expired
  unless_expired-IsSilent (stopped a) files k r h = k r h
  unless_expired-IsSilent (active state) files k r h =
      let (now, _, e) =
        continue-ok (files, now_at world 0)
          (λ now. if is_expired state now then discard codec world n now else pure (active state))
          h in
      let reply = sym (ap (λ m. m.1) e) ∙ h in
      elim (Bool-cases (is_expired state now)) [
        | inl late ↦ discard-IsSilent now files r (rw late at reply)
        | inr fresh ↦ k r (rw fresh at reply)
      ]

  pub load_active-IsSilent : (files : Files) → IsSilent (load_active codec world n files)
  unfolding load_active
  load_active-IsSilent files r h =
      let m = load_or_status codec world 0 n files in
      let (loaded, p, e) = continue-ok m (unless_expired codec world n) h in
      unless_expired-IsSilent loaded m.0
        (λ a q. status_of-IsSilent n (load codec (world.env 0) n files) a (p ∙ q)) r
        (sym (ap (λ x. x.1) e) ∙ h)
