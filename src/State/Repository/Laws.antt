-- ===== src/State/Repository/Laws.antt =====
-- What the repository of src/mr_hide/state/repository.py promises, whatever the operating system
-- answers and whatever other processes do before it holds the lock.
use mr_hide.Prelude.{
  ◌==◌, if◌then◌else◌, length, ℕ, ◌≤◌, ◌≡◌, refl, sym, ap, ◌∙◌, ◌⊎◌, inl, inr, none, some, [], ◌∷◌,
  arith,
}
use mr_hide.Errors.{Result, err, ok, err≢ok}
use mr_hide.State.Store.{
  Bytes, Files, lookup, replace, unlink, acquired, Env, max_vault_bytes, Io, given, locked,
  write_unlocked,
}
use mr_hide.State.Repository.{Codec, encrypted, write_state}
use mr_hide.State.Models.{ConversationState}

module _ {A : Type 0} (env : Env) (body : Io A) where
  -- What the lock leaves of a computation: nothing, or what the computation did.
  pub locked-cases :
      (files : Files)
      → ((locked env body files).0 ≡ env.others files)
        ⊎ ((locked env body files).0 ≡ (body (env.others files)).0)
  unfolding locked
  locked-cases files = ground arith

  pub locked-ok :
      (files : Files) {a : A}
      → (locked env body files).1 ≡ ok a
      → (locked env body files ≡ ((body (env.others files)).0, ok a))
        × ((body (env.others files)).1 ≡ ok a)
  unfolding locked
  locked-ok files h = ground arith

  pub locked-acquired :
      (files : Files) {a : A}
      → env.lock ≡ acquired
      → (body (env.others files)).1 ≡ ok a
      → (locked env body files).1 ≡ ok a
  unfolding locked
  locked-acquired files e h = ground arith

module _ {A B : Type 0} (r : Result A) (next : A → Io B) where
  pub given-cases :
      (files : Files)
      → ((given r next files).0 ≡ files)
        ⊎ ((a : A) × (r ≡ ok a) × (given r next files ≡ next a files))
  given-cases files = go r refl
    where
      go :
          (q : Result A)
          → r ≡ q
          → ((given q next files).0 ≡ files)
            ⊎ ((a : A) × (r ≡ ok a) × (given q next files ≡ next a files))
      go (ok a) e = inr (a, e, refl)
      go (err x) e = inl refl

  pub given-ok :
      (files : Files) {b : B}
      → (given r next files).1 ≡ ok b
      → (a : A) × (r ≡ ok a) × (given r next files ≡ next a files)
  given-ok files {b} h = go r refl h
    where
      go :
          (q : Result A)
          → r ≡ q
          → (given q next files).1 ≡ ok b
          → (a : A) × (r ≡ ok a) × (given q next files ≡ next a files)
      go (ok a) e k = (a, e, refl)
      go (err x) e k = absurd (err≢ok k)

pub lookup-replace :
    (n k : ℕ) (p : Bytes) (files : Files)
    → lookup k (replace n p files) ≡ (if n == k then some p else lookup k files)
unfolding lookup replace
lookup-replace n k p [] = refl
lookup-replace n k p ((j, q) ∷ files) = ground (arith, lookup-replace n k p files)

pub lookup-unlink :
    (n k : ℕ) (files : Files)
    → lookup k (unlink n files) ≡ (if n == k then none else lookup k files)
unfolding lookup unlink
lookup-unlink n k [] = ground arith
lookup-unlink n k ((j, q) ∷ files) = ground (arith, lookup-unlink n k files)

module _ (env : Env) (n : ℕ) (p : Bytes) where
  write_unlocked-cases :
      (files : Files)
      → ((write_unlocked env n p files).0 ≡ files)
        ⊎ ((write_unlocked env n p files).0 ≡ replace n p files)
  unfolding write_unlocked
  write_unlocked-cases files = ground arith

  write_unlocked-ok :
      (files : Files)
      → (write_unlocked env n p files).1 ≡ ok tt
      → ((write_unlocked env n p files).0 ≡ replace n p files) × (length p ≤ max_vault_bytes)
  unfolding write_unlocked
  write_unlocked-ok files h = (ground arith, ground arith)

module _ (codec : Codec) where
  -- The file of the conversation is replaced by the encrypted state.
  pub record Written (env : Env) (key : Result Bytes) (state : ConversationState)
      (found after : Files) : Type 0 where
    pub payload : Bytes
    pub sealed : encrypted codec env key state ≡ ok payload
    pub put : after ≡ replace state.conversation_id payload found

  pub write_state-cases :
      (env : Env) (key : Result Bytes) (state : ConversationState) (found : Files)
      → ((write_state codec env key state found).0 ≡ found)
        ⊎ Written env key state found (write_state codec env key state found).0
  unfolding write_state
  write_state-cases env key state found =
      elim (given-cases (encrypted codec env key state) (write_unlocked env state.conversation_id)
        found) [
          | inl same ↦ inl same
          | inr (p, e, done) ↦ elim (write_unlocked-cases env state.conversation_id p found) [
            | inl same ↦ inl (ap (λ r. r.0) done ∙ same)
            | inr put ↦ inr (record { payload = p; sealed = e; put = ap (λ r. r.0) done ∙ put })
          ]
        ]

  pub write_state-ok :
      (env : Env) (key : Result Bytes) (state : ConversationState) (found : Files)
      → (write_state codec env key state found).1 ≡ ok tt
      → (w : Written env key state found (write_state codec env key state found).0) × (length
            w.payload
          ≤ max_vault_bytes)
  unfolding write_state
  write_state-ok env key state found h =
      let (p, e, done) =
        given-ok (encrypted codec env key state) (write_unlocked env state.conversation_id) found
          h in
      let (put, small) =
        write_unlocked-ok env state.conversation_id p found (sym (ap (λ r. r.1) done) ∙ h) in
      (record { payload = p; sealed = e; put = ap (λ r. r.0) done ∙ put }, small)
