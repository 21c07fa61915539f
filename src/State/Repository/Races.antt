-- ===== src/State/Repository/Races.antt =====
-- Two calls of the repository of src/mr_hide/state/repository.py, one behind the other.
use mr_hide.State.Models.{ConversationState}
use mr_hide.State.Repository.{Codec, load_unlocked, encrypted, load, save}
use mr_hide.State.Store.{Bytes, Files, lookup, acquired, Env, max_vault_bytes, read_unlocked}
use mr_hide.Errors.{Result, ok, ◌>>=◌, >>=-eq-ok, ok-injective}
use mr_hide.Prelude.{==_iff, length, ℕ, ◌≤◌, ◌≡◌, refl, sym, ap, subst, ◌∙◌, ◌≢◌, true, some, arith}
use mr_hide.State.Repository.Laws.{locked-acquired, lookup-replace, Written}
use mr_hide.State.Repository.Swap.{save-ok}

-- What the codec promises of the states of one kind: what it encrypted, if a vault file can hold
-- it, it decrypts, for the identifier of the state.
abbrev pub IsReversible : (ConversationState → Type 0) → Codec → Type 0
IsReversible Accepted codec =
    (nonce : Result Bytes) (key payload : Bytes) (state : ConversationState)
    → Accepted state
    → length payload ≤ max_vault_bytes
    → codec.encrypt nonce state key ≡ ok payload
    → codec.decrypt payload key state.conversation_id ≡ ok state

-- What another call finds under the lock if no other process changes the conversation's file.
abbrev pub IsUndisturbed : Env → ℕ → Type 0
IsUndisturbed env n = (files : Files) → lookup n (env.others files) ≡ lookup n files

encrypted-ok :
    (codec : Codec) (env : Env) (state : ConversationState) (key : Bytes)
    → encrypted codec env (ok key) state ≡ codec.encrypt env.nonce state key
unfolding encrypted
encrypted-ok codec env state key = refl

read_unlocked-some :
    (env : Env) (n : ℕ) (p : Bytes) (files : Files)
    → env.readable ≡ true
    → length p ≤ max_vault_bytes
    → lookup n files ≡ some p
    → read_unlocked env n files ≡ ok p
unfolding read_unlocked
read_unlocked-some env n p files readable small e = ground arith

-- A state that was loaded could be read.
load_unlocked-readable :
    (codec : Codec) (env : Env) (n : ℕ) (files : Files) {s : ConversationState}
    → load_unlocked codec env n files ≡ ok s
    → env.readable ≡ true
unfolding load_unlocked read_unlocked
load_unlocked-readable codec env n files h =
    let (p, e, _) =
      >>=-eq-ok (read_unlocked env n files) (λ p. do key ← env.load_existing; codec.decrypt p key n)
        h in
    ground arith

module _ (Accepted : ConversationState → Type 0) (codec : Codec)
    (reversible : IsReversible Accepted codec) (first second : Env) (state : ConversationState)
    (key : Bytes) (accepted : Accepted state) (same_key : second.load_existing ≡ ok key)
    (undisturbed : IsUndisturbed second state.conversation_id) where
  -- What was written is loaded, if it can be read.
  pub load_unlocked-Written :
      {stored : Result Bytes} {found after : Files}
      → stored ≡ ok key
      → (w : Written codec first stored state found after) → length w.payload ≤ max_vault_bytes
      → second.readable ≡ true
      → load_unlocked codec second state.conversation_id (second.others after) ≡ ok state
  unfolding load_unlocked
  load_unlocked-Written {stored} {found} {after} k w small readable =
      let n = state.conversation_id in
      let there : lookup n (second.others after) ≡ some w.payload =
        undisturbed after
        ∙ ap (lookup n) w.put
        ∙ lookup-replace n n w.payload found
        ∙ (rw ((==_iff n n).1 refl) refl) in
      let sealed : codec.encrypt first.nonce state key ≡ ok w.payload =
        sym (encrypted-ok codec first state key)
        ∙ subst (λ x. encrypted codec first x state ≡ ok w.payload) k w.sealed in
      rw
        (read_unlocked-some second n w.payload (second.others after) readable small there, same_key)
        (reversible first.nonce key w.payload state accepted small sealed)

  module _ (expected_revision : ℕ) (files : Files) (first_key : first.load_existing ≡ ok key)
      (saved : (save codec first state expected_revision files).1 ≡ ok tt) where
    after : Files
    after = (save codec first state expected_revision files).0

    loaded_again :
        second.readable ≡ true
        → load_unlocked codec second state.conversation_id (second.others after) ≡ ok state
    unfolding after
    loaded_again readable =
        let (w, small) = save-ok codec first state expected_revision files saved in
        load_unlocked-Written first_key w.written small readable

    -- For a codec that decrypts what it encrypts of the states of a kind: a state of this kind that
    -- was saved is what the next call loads, if it gets the lock and the same key, can read the file, and
    -- no other process has changed that.
    pub load-save :
        second.readable ≡ true
        → second.lock ≡ acquired
        → (load codec second state.conversation_id
            (save codec first state expected_revision files).0).1
          ≡ ok state
    load-save readable lock =
        unfold load in
        (locked-acquired second
          (λ found. (found, load_unlocked codec second state.conversation_id found))
          (save codec first state expected_revision files).0 lock
          (unfold after in loaded_again readable))

    -- For a codec that decrypts what it encrypts of the states of a kind: of two saves that expect the
    -- same revision of a conversation, the second one never succeeds behind a first one that did with
    -- a state of this kind, if they get the same key and no other process has changed the
    -- conversation's file in between.
    pub save_stale :
        (other : ConversationState)
        → other.conversation_id ≡ state.conversation_id
        → (save codec second other expected_revision
            (save codec first state expected_revision files).0).1
          ≢ ok tt
    save_stale other same h =
        let (w, _) =
          save-ok codec second other expected_revision
            (save codec first state expected_revision files).0 h in
        let again =
          subst (λ n. load_unlocked codec second n (second.others after) ≡ ok w.current) same
            (unfold after in w.loaded) in
        let equal : ok state ≡ ok w.current =
          sym (
            loaded_again (
              load_unlocked-readable codec second state.conversation_id (second.others after)
                again))
          ∙ again in
        let revision : state.revision ≡ w.current.revision =
          ap (λ s. s.revision) (ok-injective equal) in
        let (v, _) = save-ok codec first state expected_revision files saved in
        omega (arith, revision, v.next, w.expected)
