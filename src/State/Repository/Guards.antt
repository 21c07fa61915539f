-- ===== src/State/Repository/Guards.antt =====
-- `create` and `delete_if_inactive` of src/mr_hide/state/repository.py: no vault is overwritten by a
-- new one, and none is deleted that was active.
use mr_hide.State.Models.{ConversationState}
use mr_hide.State.Repository.{
  Codec, load_unlocked, write_state, create, delete_inactive, delete_if_inactive,
}
use mr_hide.State.Store.{
  Files, lookup, unlink, Env, Io, given, locked, exists_unlocked, delete_unlocked,
}
use mr_hide.Errors.{
  invalid_initial_revision, vault_already_exists, vault, Result, err, ok, err≢ok, Result-cases,
}
use mr_hide.Prelude.{
  ◌==◌, if◌then◌else◌, ==_iff, Bool-cases, ℕ, ◌≤◌, ◌≡◌, refl, sym, ap, subst, ◌∙◌, ◌≢◌, ◌⊎◌, inl,
  inr, Bool, true, false, none, arith,
}
use mr_hide.State.Repository.Laws.{
  locked-cases, locked-ok, given-cases, given-ok, Written, write_state-cases, write_state-ok,
}

module _ (codec : Codec) (env : Env) where
  -- There was no file of the conversation, and its first one is put there.
  pub record Created (state : ConversationState) (files after : Files) : Type 0 where
    pub first : state.revision ≡ 0
    pub absent : lookup state.conversation_id (env.others files) ≡ none
    pub placed : Written codec env env.get_or_create state (env.others files) after

  module _ (state : ConversationState) where
    create_body : Io (Unit {0})
    create_body found =
        if exists_unlocked state.conversation_id found
        then (found, err (vault vault_already_exists))
        else write_state codec env env.get_or_create state found

    create-split :
        (files : Files)
        → ((state.revision ≡ 0) × (create codec env state files ≡ locked env create_body files))
          ⊎ (create codec env state files ≡ (files, err (vault invalid_initial_revision)))
    unfolding create create_body
    create-split files = elim (Bool-cases (state.revision == 0)) [
      | inl e ↦ inl ((==_iff state.revision 0).0 e, rw e refl)
      | inr e ↦ inr (rw e refl)
    ]

    absent_or_not :
        (found : Files)
        → ((create_body found) ≡ (found, err (vault vault_already_exists)))
          ⊎ ((lookup state.conversation_id found ≡ none)
              × (create_body found ≡ write_state codec env env.get_or_create state found))
    unfolding create_body
    absent_or_not found = ground arith

    create_body-cases :
        (found : Files)
        → ((create_body found).0 ≡ found)
          ⊎ ((lookup state.conversation_id found ≡ none)
              × Written codec env env.get_or_create state found (create_body found).0)
    create_body-cases found = elim (absent_or_not found) [
      | inl e ↦ inl (ap (λ r. r.0) e)
      | inr (absent, e) ↦ elim (write_state-cases codec env env.get_or_create state found) [
        | inl same ↦ inl (ap (λ r. r.0) e ∙ same)
        | inr w ↦
            inr (absent, subst (λ r. Written codec env env.get_or_create state found r.0) (sym e) w)
      ]
    ]

    create_body-ok :
        (found : Files)
        → (create_body found).1 ≡ ok tt
        → (lookup state.conversation_id found ≡ none)
          × Written codec env env.get_or_create state found (create_body found).0
    create_body-ok found h = elim (absent_or_not found) [
      | inl e ↦ absurd (err≢ok (sym (ap (λ r. r.1) e) ∙ h))
      | inr (absent, e) ↦
          let (w, _) =
            write_state-ok codec env env.get_or_create state found (sym (ap (λ r. r.1) e) ∙ h) in
          (absent, subst (λ r. Written codec env env.get_or_create state found r.0) (sym e) w)
    ]

    create-outcome :
        (files : Files)
        → (((create codec env state files).0 ≡ files)
            ⊎ (((create codec env state files).0 ≡ env.others files)
                ⊎ Created state files (create codec env state files).0))
          × ((create codec env state files).1 ≡ ok tt
              → Created state files (create codec env state files).0)
    create-outcome files = elim (create-split files) [
      | inr e ↦ (inl (ap (λ r. r.0) e), λ h. absurd (err≢ok (sym (ap (λ r. r.1) e) ∙ h)))
      | inl (first, e) ↦ (
        inr (elim (locked-cases env create_body files) [
          | inl same ↦ inl (ap (λ r. r.0) e ∙ same)
          | inr done ↦ elim (create_body-cases (env.others files)) [
            | inl same ↦ inl (ap (λ r. r.0) e ∙ done ∙ same)
            | inr (absent, w) ↦ inr (
                subst (Created state files) (sym (ap (λ r. r.0) e ∙ done))
                  (record { first = first; absent = absent; placed = w }))
          ]
        ]),
        λ h.
            let (done, inner) = locked-ok env create_body files (sym (ap (λ r. r.1) e) ∙ h) in
            let (absent, w) = create_body-ok (env.others files) inner in
            subst (Created state files) (sym (ap (λ r. r.0) (e ∙ done)))
              (record { first = first; absent = absent; placed = w }),
      )
    ]

    -- Whatever the operating system answers and other processes do: creating a conversation adds its
    -- first file, of which there was none, or it does not succeed and leaves the files as they were
    -- found, before or behind the lock.
    pub create-Created :
        (files : Files)
        → Created state files (create codec env state files).0
          ⊎ (((create codec env state files).1 ≢ ok tt)
              × (((create codec env state files).0 ≡ files)
                  ⊎ ((create codec env state files).0 ≡ env.others files)))
    create-Created files = elim (Result-cases (create codec env state files).1) [
      | inl (_, e) ↦ inl ((create-outcome files).1 e)
      | inr (_, e) ↦ elim (create-outcome files).0 [
        | inl same ↦ inr (λ h. err≢ok (sym e ∙ h), inl same)
        | inr (inl same) ↦ inr (λ h. err≢ok (sym e ∙ h), inr same)
        | inr (inr w) ↦ inl w
      ]
    ]

  -- The file of the conversation held a state without activity behind the cutoff, and is removed.
  pub record Expired (n cutoff : ℕ) (files after : Files) : Type 0 where
    pub current : ConversationState
    pub loaded : load_unlocked codec env n (env.others files) ≡ ok current
    pub inactive : current.last_activity ≤ cutoff
    pub removed : after ≡ unlink n (env.others files)

  module _ (n cutoff : ℕ) where
    delete_body : Io Bool
    delete_body found =
        if exists_unlocked n found
        then given (load_unlocked codec env n found) (delete_inactive codec env n cutoff) found
        else (found, ok false)

    delete_inactive-cases :
        (current : ConversationState) (found : Files)
        → (((delete_inactive codec env n cutoff current found).0 ≡ found)
            ⊎ ((current.last_activity ≤ cutoff)
                × ((delete_inactive codec env n cutoff current found).0 ≡ unlink n found)))
          × ((delete_inactive codec env n cutoff current found).1 ≡ ok true
              → (current.last_activity ≤ cutoff)
                × ((delete_inactive codec env n cutoff current found).0 ≡ unlink n found))
    unfolding delete_inactive delete_unlocked
    delete_inactive-cases current found = (ground arith, ground arith)

    delete_body-cases :
        (found : Files)
        → (delete_body found ≡ (found, ok false))
          ⊎ (delete_body found
              ≡ given (load_unlocked codec env n found) (delete_inactive codec env n cutoff) found)
    unfolding delete_body
    delete_body-cases found = ground arith

    delete_if_inactive-outcome :
        (files : Files)
        → (((delete_if_inactive codec env n cutoff files).0 ≡ env.others files)
            ⊎ Expired n cutoff files (delete_if_inactive codec env n cutoff files).0)
          × ((delete_if_inactive codec env n cutoff files).1 ≡ ok true
              → Expired n cutoff files (delete_if_inactive codec env n cutoff files).0)
    delete_if_inactive-outcome files = (by_cases, by_report)
      where
        found : Files
        found = env.others files

        next : ConversationState → Io Bool
        next = delete_inactive codec env n cutoff

        same_call : delete_if_inactive codec env n cutoff files ≡ locked env delete_body files
        same_call = unfold delete_if_inactive delete_body in refl

        removal :
            (current : ConversationState) (after : Files)
            → load_unlocked codec env n found ≡ ok current
            → current.last_activity ≤ cutoff
            → (locked env delete_body files).0 ≡ after
            → after ≡ unlink n found
            → Expired n cutoff files (delete_if_inactive codec env n cutoff files).0
        removal current after loaded inactive e removed =
            subst (Expired n cutoff files) (sym (ap (λ r. r.0) same_call ∙ e)) (record {
              current = current;
              loaded = loaded;
              inactive = inactive;
              removed = removed;
            })

        by_cases :
            ((delete_if_inactive codec env n cutoff files).0 ≡ env.others files)
            ⊎ Expired n cutoff files (delete_if_inactive codec env n cutoff files).0
        by_cases = elim (locked-cases env delete_body files) [
          | inl same ↦ inl (ap (λ r. r.0) same_call ∙ same)
          | inr done ↦ elim (delete_body-cases found) [
            | inl e ↦ inl (ap (λ r. r.0) same_call ∙ done ∙ ap (λ r. r.0) e)
            | inr e ↦ elim (given-cases (load_unlocked codec env n found) next found) [
              | inl same ↦ inl (ap (λ r. r.0) same_call ∙ done ∙ ap (λ r. r.0) e ∙ same)
              | inr (current, loaded, k) ↦ elim (delete_inactive-cases current found).0 [
                | inl same ↦ inl (ap (λ r. r.0) same_call ∙ done ∙ ap (λ r. r.0) (e ∙ k) ∙ same)
                | inr (inactive, removed) ↦ inr (
                    removal current (next current found).0 loaded inactive
                      (done ∙ ap (λ r. r.0) (e ∙ k)) removed)
              ]
            ]
          ]
        ]

        by_report :
            (delete_if_inactive codec env n cutoff files).1 ≡ ok true
            → Expired n cutoff files (delete_if_inactive codec env n cutoff files).0
        by_report h =
            let (done, inner) =
              locked-ok env delete_body files (sym (ap (λ r. r.1) same_call) ∙ h) in
            elim (delete_body-cases found) [
              | inl e ↦ absurd (differ (sym (ap (λ r. r.1) e) ∙ inner))
              | inr e ↦
                  let given_reply = sym (ap (λ r. r.1) e) ∙ inner in
                  let (current, loaded, k) =
                    given-ok (load_unlocked codec env n found) next found given_reply in
                  let (inactive, removed) =
                    (delete_inactive-cases current found).1 (sym (ap (λ r. r.1) k) ∙ given_reply) in
                  removal current (next current found).0 loaded inactive
                    (ap (λ r. r.0) done ∙ ap (λ r. r.0) (e ∙ k)) removed
            ]
          where
            differ : ok false ≡ ok true → ⊥
            differ p = cc

    -- Whatever the operating system answers and other processes do: `delete_if_inactive` removes the
    -- file of the conversation, whose state had no activity behind the cutoff, or it reports no
    -- deletion and leaves the files as they were found under the lock.
    pub delete_if_inactive-Expired :
        (files : Files)
        → Expired n cutoff files (delete_if_inactive codec env n cutoff files).0
          ⊎ (((delete_if_inactive codec env n cutoff files).1 ≢ ok true)
              × ((delete_if_inactive codec env n cutoff files).0 ≡ env.others files))
    delete_if_inactive-Expired files =
        elim (deleted_or_not (delete_if_inactive codec env n cutoff files).1) [
          | inl e ↦ inl ((delete_if_inactive-outcome files).1 e)
          | inr k ↦ elim (delete_if_inactive-outcome files).0 [
            | inl same ↦ inr (k, same)
            | inr w ↦ inl w
          ]
        ]
      where
        deleted_or_not : (reply : Result Bool) → (reply ≡ ok true) ⊎ (reply ≢ ok true)
        deleted_or_not (ok true) = inl refl
        deleted_or_not (ok false) = inr (λ h. cc)
        deleted_or_not (err e) = inr (λ h. err≢ok h)
