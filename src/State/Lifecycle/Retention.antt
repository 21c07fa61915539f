-- ===== src/State/Lifecycle/Retention.antt =====
-- The retention of src/mr_hide/state/lifecycle.py: which states `_load_active` returns.
use mr_hide.Prelude.{
  if◌then◌else◌, Bool-cases, ℕ, ◌+◌, ◌-◌, ◌≤◌, ◌<◌, ◌≡◌, refl, sym, ap, subst, ◌∙◌, ◌⊎◌, inl, inr,
  Bool, true, false, arith,
}
use mr_hide.Errors.{
  privacy, vault, runtime, responses, messages, malformed, builtin, Result, err, ok, err≢ok,
}
use mr_hide.State.Models.{ConversationState}
use mr_hide.State.Store.{Files, pure}
use mr_hide.State.Repository.{Codec, delete_if_inactive}
use mr_hide.State.Lifecycle.{
  Loaded, active, stopped, World, retention_period, now_at, is_expired, retention_cutoff,
  load_or_status, deleted_or_reloaded, discard, unless_expired, load_active,
}
use mr_hide.State.Lifecycle.Release.{continue-ok}

module _ (codec : Codec) (world : World) (n : ℕ) where
  -- The first load gave the state, and its last activity is less than 30 days ago.
  abbrev pub IsFresh : ConversationState → Files → Type 0
  IsFresh state files =
      (now : ℕ) × (now_at world 0 ≡ ok now)
      × (now < state.last_activity + retention_period)
      × ((load_or_status codec world 0 n files).1 ≡ ok (active state))

  -- the call of `delete_if_inactive` behind the first load
  abbrev pub deletion : ℕ → Files → Files × Result Bool
  deletion now files =
      delete_if_inactive codec (world.env 1) n (now - retention_period)
        (load_or_status codec world 0 n files).0

  -- The first load gave a state whose last activity was at least 30 days ago; `delete_if_inactive`,
  -- called for what is older than that, reported no deletion; and the state is from the load behind it.
  abbrev pub IsReloaded : ConversationState → Files → Type 0
  IsReloaded state files =
      (now : ℕ) × (first : ConversationState) × (now_at world 0 ≡ ok now)
      × ((load_or_status codec world 0 n files).1 ≡ ok (active first))
      × (first.last_activity + retention_period ≤ now)
      × ((deletion now files).1 ≡ ok false)
      × ((load_or_status codec world 2 n (deletion now files).0).1 ≡ ok (active state))

  deleted_or_reloaded-active :
      (m : Files × Result Bool) (state : ConversationState)
      → (deleted_or_reloaded codec world n m).1 ≡ ok (active state)
      → (m.1 ≡ ok false) × ((load_or_status codec world 2 n m.0).1 ≡ ok (active state))
  unfolding deleted_or_reloaded
  deleted_or_reloaded-active (files, ok true) state h = cc
  deleted_or_reloaded-active (files, ok false) state h = (refl, h)
  deleted_or_reloaded-active (files, err (vault reason)) state h = cc
  deleted_or_reloaded-active (files, err (privacy reason)) state h = absurd (err≢ok h)
  deleted_or_reloaded-active (files, err (runtime reason)) state h = absurd (err≢ok h)
  deleted_or_reloaded-active (files, err builtin) state h = absurd (err≢ok h)
  deleted_or_reloaded-active (files, err (responses reason)) state h = absurd (err≢ok h)
  deleted_or_reloaded-active (files, err (messages reason)) state h = absurd (err≢ok h)
  deleted_or_reloaded-active (files, err malformed) state h = absurd (err≢ok h)

  retention_cutoff-ok :
      (now cutoff : ℕ) → retention_cutoff now ≡ ok cutoff → now - retention_period ≡ cutoff
  unfolding retention_cutoff
  retention_cutoff-ok now cutoff h = ground arith

  discard-active :
      (now : ℕ) (before : Files) (state : ConversationState)
      → (discard codec world n now before).1 ≡ ok (active state)
      → ((delete_if_inactive codec (world.env 1) n (now - retention_period) before).1 ≡ ok false)
        × ((load_or_status codec world 2 n
              (delete_if_inactive codec (world.env 1) n (now - retention_period) before).0).1
            ≡ ok (active state))
  unfolding discard
  discard-active now before state h =
      let (cutoff, c, e) =
        continue-ok (before, retention_cutoff now)
          (λ cutoff found.
            deleted_or_reloaded codec world n
              (delete_if_inactive codec (world.env 1) n cutoff found))
          h in
      subst
        (λ k.
          ((delete_if_inactive codec (world.env 1) n k before).1 ≡ ok false)
          × ((load_or_status codec world 2 n
                (delete_if_inactive codec (world.env 1) n k before).0).1
              ≡ ok (active state)))
        (sym (retention_cutoff-ok now cutoff c))
        (deleted_or_reloaded-active (delete_if_inactive codec (world.env 1) n cutoff before) state
          (sym (ap (λ m. m.1) e) ∙ h))

  expired_then :
      (state : ConversationState) (now : ℕ)
      → is_expired state now ≡ true
      → state.last_activity + retention_period ≤ now
  unfolding is_expired
  expired_then state now h = ground arith

  not_expired :
      (state : ConversationState) (now : ℕ)
      → is_expired state now ≡ false
      → now < state.last_activity + retention_period
  unfolding is_expired
  not_expired state now h = ground arith

  unless_expired-active :
      (loaded : Loaded) (files : Files) (state : ConversationState)
      → (load_or_status codec world 0 n files).1 ≡ ok loaded
      → (unless_expired codec world n loaded (load_or_status codec world 0 n files).0).1
        ≡ ok (active state)
      → IsFresh state files ⊎ IsReloaded state files
  unfolding unless_expired
  unless_expired-active (stopped r) files state p h = cc
  unless_expired-active (active first) files state p h =
      let (now, clock, e) =
        continue-ok ((load_or_status codec world 0 n files).0, now_at world 0)
          (λ now. if is_expired first now then discard codec world n now else pure (active first))
          h in
      let reply = sym (ap (λ m. m.1) e) ∙ h in
      elim (Bool-cases (is_expired first now)) [
        | inl late ↦
            let (kept, again) =
              discard-active now (load_or_status codec world 0 n files).0 state
                (rw late at reply) in
            inr (now, first, clock, p, expired_then first now late, kept, again)
        | inr fresh ↦
            let same : ok (active first) ≡ ok (active state) = rw fresh at reply in
            let equal : first ≡ state = active-injective same in
            inl (
              now,
              clock,
              subst (λ s. now < s.last_activity + retention_period) equal
                  (not_expired first now fresh),
              p ∙ same,
            )
      ]
    where
      active-injective : {a b : ConversationState} → ok (active a) ≡ ok (active b) → a ≡ b
      active-injective q = cc

  -- _load_active returns a state only if it was loaded with a last activity less than 30 days
  -- before the time that the clock showed, or if the state that was loaded first was not,
  -- delete_if_inactive then reported no deletion, and the state is what was loaded behind that.
  pub load_active-IsFresh :
      (files : Files) (state : ConversationState)
      → (load_active codec world n files).1 ≡ ok (active state)
      → IsFresh state files ⊎ IsReloaded state files
  unfolding load_active
  load_active-IsFresh files state h =
      let m = load_or_status codec world 0 n files in
      let (loaded, p, e) = continue-ok m (unless_expired codec world n) h in
      unless_expired-active loaded files state p (sym (ap (λ x. x.1) e) ∙ h)
