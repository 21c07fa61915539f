-- ===== src/Runtime/Transaction/Commit.antt =====
-- `commit` of `PrivacyTransaction` in src/mr_hide/runtime/privacy.py.
use mr_hide.Prelude.{
  Bool-cases, Text, ℕ, ◌≡◌, refl, sym, ap, subst, ◌∙◌, ◌⊎◌, inl, inr, true, none, some, List,
}
use mr_hide.Errors.{
  transaction_already_committed, privacy, vault, runtime, responses, messages, malformed, builtin,
  Result, err, ok, err≢ok,
}
use mr_hide.Policy.{ContentKind}
use mr_hide.Privacy.Unicode.{Unicode}
use mr_hide.Privacy.Models.{DetectedSpan}
use mr_hide.State.Models.{aware, ConversationState, next_revision}
use mr_hide.State.Store.{Files, Env}
use mr_hide.State.Repository.{Codec, save}
use mr_hide.State.Repository.Swap.{Swapped, save-ok}
use mr_hide.State.Lifecycle.Release.{continue-ok}
use mr_hide.Runtime.Transaction.{Transaction, transform, save_updated, finished, commit}

module _ (codec : Codec) (env : Env) where
  -- The file of the conversation, which held the revision that the transaction began with, has the
  -- next one with the mappings of the transaction, and the transaction is closed.
  pub record Closed (x x' : Transaction) (files after : Files) : Type 0 where
    pub updated : ConversationState
    pub next : next_revision x.state (some x.mappings) none (some (aware x.now)) ≡ ok updated
    pub swapped : Swapped codec env updated x.state.revision files after
    pub closed : x' ≡ record x { committed = true }

  finished-ok :
      (x : Transaction) (m : Files × Result (Unit {0}))
      → (finished codec env x m).1.1 ≡ ok tt
      → (m.1 ≡ ok tt)
        × ((finished codec env x m).0 ≡ m.0)
        × ((finished codec env x m).1.0 ≡ record x { committed = true })
  finished-ok x (files, ok a) h = (refl, refl, refl)
  finished-ok x (files, err (vault reason)) h = absurd (err≢ok h)
  finished-ok x (files, err (privacy reason)) h = absurd (err≢ok h)
  finished-ok x (files, err (runtime reason)) h = absurd (err≢ok h)
  finished-ok x (files, err builtin) h = absurd (err≢ok h)
  finished-ok x (files, err (responses reason)) h = absurd (err≢ok h)
  finished-ok x (files, err (messages reason)) h = absurd (err≢ok h)
  finished-ok x (files, err malformed) h = absurd (err≢ok h)

  commit-split :
      (x : Transaction) (files : Files)
      → (commit codec env x files ≡ (files, (x, err (runtime transaction_already_committed))))
        ⊎ (commit codec env x files ≡ finished codec env x (save_updated codec env x files))
  unfolding commit
  commit-split x files = elim (Bool-cases x.committed) [
    | inl c ↦ inl (rw c refl)
    | inr c ↦ inr (rw c refl)
  ]

  save_updated-Swapped :
      (x : Transaction) (files : Files)
      → (save_updated codec env x files).1 ≡ ok tt
      → (updated : ConversationState) × (next_revision x.state
            (some x.mappings)
            none
            (some (aware x.now))
          ≡ ok updated)
        × Swapped codec env updated x.state.revision files (save_updated codec env x files).0
  unfolding save_updated
  save_updated-Swapped x files h =
      let (updated, next, e) =
        continue-ok (files, next_revision x.state (some x.mappings) none (some (aware x.now)))
          (λ updated. save codec env updated x.state.revision) h in
      (
        updated,
        next,
        subst (λ m. Swapped codec env updated x.state.revision files m.0) (sym e)
            (save-ok codec env updated x.state.revision files (sym (ap (λ m. m.1) e) ∙ h)).0,
      )

  -- A commit that succeeds has saved the next revision of the state that the transaction began with,
  -- with all the mappings of the transaction, over the revision that it began with, and has closed
  -- the transaction.
  pub commit-Closed :
      (x : Transaction) (files : Files)
      → (commit codec env x files).1.1 ≡ ok tt
      → Closed x (commit codec env x files).1.0 files (commit codec env x files).0
  commit-Closed x files h = elim (commit-split x files) [
    | inl e ↦ absurd (err≢ok (sym (ap (λ m. m.1.1) e) ∙ h))
    | inr e ↦
        let (saved, after, closed) =
          finished-ok x (save_updated codec env x files) (sym (ap (λ m. m.1.1) e) ∙ h) in
        let (updated, next, swapped) = save_updated-Swapped x files saved in
        record {
          updated = updated;
          next = next;
          swapped =
              subst (Swapped codec env updated x.state.revision files)
                (sym (ap (λ m. m.0) e ∙ after)) swapped;
          closed = ap (λ m. m.1.0) e ∙ closed;
        }
  ]

-- Behind a commit that succeeded, every call of `transform` and of `commit` raises
-- `transaction-already-committed`, and changes neither the transaction nor the files.
pub commit_closes :
    (codec : Codec) (env later : Env) (x : Transaction) (files more : Files) (u : Unicode)
    (ipv6 : ℕ → Text) (detect : Text → Result (List DetectedSpan)) (t : Text) (kind : ContentKind)
    → (commit codec env x files).1.1 ≡ ok tt
    → (transform u ipv6 detect (commit codec env x files).1.0 t kind
        ≡ ((commit codec env x files).1.0, err (runtime transaction_already_committed)))
      × (commit codec later (commit codec env x files).1.0 more
          ≡ (more, ((commit codec env x files).1.0, err (runtime transaction_already_committed))))
commit_closes codec env later x files more u ipv6 detect t kind h =
    let c : (commit codec env x files).1.0.committed ≡ true =
      ap (λ y. y.committed) (commit-Closed codec env x files h).closed in
    (
      refused_transform (commit codec env x files).1.0 c,
      refused_commit (commit codec env x files).1.0 c,
    )
  where
    refused_transform :
        (y : Transaction)
        → y.committed ≡ true
        → transform u ipv6 detect y t kind ≡ (y, err (runtime transaction_already_committed))
    refused_transform y c = unfold transform in (rw c refl)

    refused_commit :
        (y : Transaction)
        → y.committed ≡ true
        → commit codec later y more ≡ (more, (y, err (runtime transaction_already_committed)))
    refused_commit y c = unfold commit in (rw c refl)
