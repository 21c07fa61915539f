-- ===== src/State/Repository/Swap.antt =====
-- `save` of src/mr_hide/state/repository.py compares and swaps: nothing is written over a revision
-- that the caller did not read.
use mr_hide.State.Models.{ConversationState}
use mr_hide.State.Repository.{Codec, load_unlocked, save_over, save_unlocked, save}
use mr_hide.State.Store.{Files, Env, max_vault_bytes, Io, locked}
use mr_hide.Errors.{invalid_next_revision, vault, err, ok, err≢ok, Result-cases}
use mr_hide.Prelude.{
  ◌==◌, ==_iff, Bool-cases, length, ℕ, ◌+◌, ◌≤◌, ◌≡◌, refl, sym, ap, subst, ◌∙◌, ◌≢◌, ◌⊎◌, inl, inr,
  arith,
}
use mr_hide.State.Repository.Laws.{
  locked-cases, locked-ok, given-cases, given-ok, Written, write_state-cases, write_state-ok,
}

module _ (codec : Codec) where
  -- The file of the conversation held the expected revision, and the next one is put in its place.
  pub record Swapped (env : Env) (state : ConversationState) (expected_revision : ℕ)
      (files after : Files) : Type 0 where
    pub next : state.revision ≡ expected_revision + 1
    pub current : ConversationState
    pub loaded : load_unlocked codec env state.conversation_id (env.others files) ≡ ok current
    pub expected : current.revision ≡ expected_revision
    pub written : Written codec env env.load_existing state (env.others files) after

  module _ (env : Env) (state : ConversationState) (expected_revision : ℕ) where
    body : Io (Unit {0})
    body = save_unlocked codec env state expected_revision

    save_over-cases :
        (current : ConversationState) (found : Files)
        → ((save_over codec env state expected_revision current found).0 ≡ found)
          ⊎ ((current.revision ≡ expected_revision)
              × Written codec env env.load_existing state found
                  (save_over codec env state expected_revision current found).0)
    unfolding save_over
    save_over-cases current found = elim (Bool-cases (current.revision == expected_revision)) [
      | inl e ↦ rw e (elim (write_state-cases codec env env.load_existing state found) [
        | inl same ↦ inl same
        | inr w ↦ inr (ground arith, w)
      ])
      | inr e ↦ inl (rw e)
    ]

    save_over-ok :
        (current : ConversationState) (found : Files)
        → (save_over codec env state expected_revision current found).1 ≡ ok tt
        → (current.revision ≡ expected_revision)
          × ((w : Written codec env env.load_existing state found
                (save_over codec env state expected_revision current found).0)
              × (length w.payload ≤ max_vault_bytes))
    unfolding save_over
    save_over-ok current found h = elim (Bool-cases (current.revision == expected_revision)) [
      | inl e ↦
          (ground arith, rw e (write_state-ok codec env env.load_existing state found (rw e at h)))
      | inr e ↦ absurd (err≢ok (rw e at h))
    ]

    save_unlocked-cases :
        (found : Files)
        → ((body found).0 ≡ found)
          ⊎ ((current : ConversationState) × (load_unlocked codec env state.conversation_id found
                ≡ ok current)
              × (current.revision ≡ expected_revision)
              × Written codec env env.load_existing state found (body found).0)
    unfolding body save_unlocked
    save_unlocked-cases found =
        elim (given-cases (load_unlocked codec env state.conversation_id found)
          (save_over codec env state expected_revision) found) [
            | inl same ↦ inl same
            | inr (current, e, done) ↦ elim (save_over-cases current found) [
              | inl same ↦ inl (ap (λ r. r.0) done ∙ same)
              | inr (r, w) ↦ inr (
                current,
                e,
                r,
                subst (λ x. Written codec env env.load_existing state found x.0) (sym done) w,
              )
            ]
          ]

    save_unlocked-ok :
        (found : Files)
        → (body found).1 ≡ ok tt
        → (current : ConversationState) × (load_unlocked codec env state.conversation_id found
            ≡ ok current)
          × (current.revision ≡ expected_revision)
          × ((w : Written codec env env.load_existing state found (body found).0) × (length
                  w.payload
                ≤ max_vault_bytes))
    unfolding body save_unlocked
    save_unlocked-ok found h =
        let (current, e, done) =
          given-ok (load_unlocked codec env state.conversation_id found)
            (save_over codec env state expected_revision) found h in
        let (r, w) = save_over-ok current found (sym (ap (λ x. x.1) done) ∙ h) in
        (
          current,
          e,
          r,
          subst
              (λ x.
                (w : Written codec env env.load_existing state found x.0) × (length w.payload
                  ≤ max_vault_bytes))
              (sym done) w,
        )

    save-split :
        (files : Files)
        → ((state.revision ≡ expected_revision + 1)
            × (save codec env state expected_revision files ≡ locked env body files))
          ⊎ (save codec env state expected_revision files
              ≡ (files, err (vault invalid_next_revision)))
    unfolding save body
    save-split files = elim (Bool-cases (state.revision == expected_revision + 1)) [
      | inl e ↦ inl ((==_iff state.revision (expected_revision + 1)).0 e, rw e refl)
      | inr e ↦ inr (rw e refl)
    ]

    -- What a successful save did, and that the new file can be read.
    pub save-ok :
        (files : Files)
        → (save codec env state expected_revision files).1 ≡ ok tt
        → (w : Swapped env state expected_revision files
            (save codec env state expected_revision files).0)
          × (length w.written.payload ≤ max_vault_bytes)
    save-ok files h = elim (save-split files) [
      | inr e ↦ absurd (err≢ok (sym (ap (λ r. r.1) e) ∙ h))
      | inl (next, e) ↦
          let (done, inner) = locked-ok env body files (sym (ap (λ r. r.1) e) ∙ h) in
          let (current, loaded, expected, (put, small)) =
            save_unlocked-ok (env.others files) inner in
          let w : Swapped env state expected_revision files (body (env.others files)).0 = record {
            next = next;
            current = current;
            loaded = loaded;
            expected = expected;
            written = put;
          } in
          subst
            (λ after.
              (w : Swapped env state expected_revision files after) × (length w.written.payload
                ≤ max_vault_bytes))
            (sym (ap (λ r. r.0) (e ∙ done))) (w, small)
    ]

    -- A save leaves the files as they were found, before or behind the lock, or compares and swaps.
    save-cases :
        (files : Files)
        → ((save codec env state expected_revision files).0 ≡ files)
          ⊎ (((save codec env state expected_revision files).0 ≡ env.others files)
              ⊎ Swapped env state expected_revision files
                  (save codec env state expected_revision files).0)
    save-cases files = elim (save-split files) [
      | inr e ↦ inl (ap (λ r. r.0) e)
      | inl (next, e) ↦ inr (elim (locked-cases env body files) [
        | inl same ↦ inl (ap (λ r. r.0) e ∙ same)
        | inr done ↦ elim (save_unlocked-cases (env.others files)) [
          | inl same ↦ inl (ap (λ r. r.0) e ∙ done ∙ same)
          | inr (current, loaded, expected, put) ↦ inr (
              subst (Swapped env state expected_revision files) (sym (ap (λ r. r.0) e ∙ done))
                (record {
                  next = next;
                  current = current;
                  loaded = loaded;
                  expected = expected;
                  written = put;
                }))
        ]
      ])
    ]

    -- Whatever the operating system answers and other processes do: a save replaces the file of the
    -- conversation, which held the expected revision, by the next one, or it does not succeed and
    -- leaves the files as they were found, before or behind the lock.
    pub save-Swapped :
        (files : Files)
        → Swapped env state expected_revision files (save codec env state expected_revision files).0
          ⊎ (((save codec env state expected_revision files).1 ≢ ok tt)
              × (((save codec env state expected_revision files).0 ≡ files)
                  ⊎ ((save codec env state expected_revision files).0 ≡ env.others files)))
    save-Swapped files = elim (Result-cases (save codec env state expected_revision files).1) [
      | inl (_, e) ↦ inl (save-ok files e).0
      | inr (_, e) ↦ elim (save-cases files) [
        | inl same ↦ inr (λ h. err≢ok (sym e ∙ h), inl same)
        | inr (inl same) ↦ inr (λ h. err≢ok (sym e ∙ h), inr same)
        | inr (inr w) ↦ inl w
      ]
    ]
