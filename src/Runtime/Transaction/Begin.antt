-- ===== src/Runtime/Transaction/Begin.antt =====
-- The method `transaction` of `PrivacyRuntime` in src/mr_hide/runtime/privacy.py.
use mr_hide.Prelude.{ℕ, ◌+◌, ◌<◌, ◌≡◌, arith}
use mr_hide.Errors.{
  privacy, vault, runtime, responses, messages, malformed, builtin, Result, err, ok, ◌>>=◌,
  >>=-eq-ok, err≢ok,
}
use mr_hide.Policy.{ToolPolicy, Direction}
use mr_hide.State.Models.{Moment, require_utc, ConversationState}
use mr_hide.State.Store.{Files, Env}
use mr_hide.State.Repository.{Codec, load}
use mr_hide.State.Lifecycle.{retention_period, is_expired}
use mr_hide.Runtime.Transaction.{
  Transaction, transaction, vault_as_runtime, unless_stale, begun_with, begin,
}

vault_as_runtime-ok : {A : Type 0} (m : Result A) {a : A} → vault_as_runtime m ≡ ok a → m ≡ ok a
vault_as_runtime-ok (ok a) h = h
vault_as_runtime-ok (err (vault reason)) h = absurd (err≢ok h)
vault_as_runtime-ok (err (privacy reason)) h = absurd (err≢ok h)
vault_as_runtime-ok (err (runtime reason)) h = absurd (err≢ok h)
vault_as_runtime-ok (err builtin) h = absurd (err≢ok h)
vault_as_runtime-ok (err (responses reason)) h = absurd (err≢ok h)
vault_as_runtime-ok (err (messages reason)) h = absurd (err≢ok h)
vault_as_runtime-ok (err malformed) h = absurd (err≢ok h)

unless_stale-ok :
    (state : ConversationState) (policy : ToolPolicy) (direction : Direction) (now : ℕ)
    {x : Transaction}
    → unless_stale state policy direction now ≡ ok x
    → (now < state.last_activity + retention_period) × (transaction state policy direction now ≡ x)
unfolding unless_stale is_expired
unless_stale-ok state policy direction now h = (ground arith, ground arith)

-- A transaction that is begun is the constructor's for the state that was loaded, whose last activity
-- is less than 30 days before the time that the clock showed.
pub begin_lem :
    (codec : Codec) (env : Env) (moment : Moment) (n : ℕ) (policy : ToolPolicy)
    (direction : Direction) (files : Files) {x : Transaction}
    → (begin codec env moment n policy direction files).1 ≡ ok x
    → (state : ConversationState) × (now : ℕ) × ((load codec env n files).1 ≡ ok state)
      × (require_utc moment ≡ ok now)
      × (now < state.last_activity + retention_period)
      × (transaction state policy direction now ≡ x)
unfolding begun_with
begin_lem codec env moment n policy direction files h =
    let reply = (load codec env n files).1 in
    let (state, loaded, k) =
      >>=-eq-ok reply
        (λ state. do now ← require_utc moment; unless_stale state policy direction now)
        (vault_as_runtime-ok _ h) in
    let (now, clock, q) =
      >>=-eq-ok (require_utc moment) (λ now. unless_stale state policy direction now) k in
    let (fresh, same) = unless_stale-ok state policy direction now q in
    (state, now, loaded, clock, fresh, same)
