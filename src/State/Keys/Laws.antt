-- ===== src/State/Keys/Laws.antt =====
-- The master key of src/mr_hide/state/keys.py is the one in the keyring.
-- A key that the text in the keyring stands for.
use mr_hide.Prelude.{
  ltb, ◌==◌, if◌then◌else◌, ==_iff, Bool-cases, length, all, Text, text_eq_iff, ◌≡◌, refl, sym, ap,
  subst, ◌∙◌, inl, inr, Bool, true, false, not, ◌&&◌, Option, none, some, text_eq,
}
use mr_hide.Errors.{
  Reason, master_key_write_failed, master_key_lock_failed, vault_directory_unavailable, Error,
  privacy, vault, runtime, responses, messages, malformed, builtin, Result, err, ok, ◌>>=◌, ◌>>◌,
  raise_if, >>=-eq-ok, after_guard, ok-injective, err≢ok,
}
use mr_hide.State.Store.{Bytes, LockReply, acquired, refused, unreleased}
use mr_hide.State.Leaves.{CodecLibrary, master_key_bytes, as_vault}
use mr_hide.State.Keys.{
  Ring, approved, KeyEnv, decode_master_key, approved_backend, read_ring, existing_key,
  load_existing, same_digest, is_confirmed, confirm, store_key, created_from, found_or_created,
  under_lock, with_lock, get_or_create,
}

abbrev pub IsKept : CodecLibrary → Bytes → Ring → Type 0
IsKept l key ring = (t : Text) × (ring ≡ some t) × (decode_master_key l t ≡ ok key)

same_digest-ok : (l : CodecLibrary) (a b : Text) → same_digest l a b ≡ ok true → a ≡ b
unfolding same_digest
same_digest-ok l a b h = elim (Bool-cases (all (λ c. ltb c 128) a && all (λ c. ltb c 128) b)) [
  | inl e ↦
      (text_eq_iff a b).0
        (ok-injective (subst (λ x. (if x then ok (text_eq a b) else err malformed) ≡ ok true) e h))
  | inr e ↦
      absurd (err≢ok (subst (λ x. (if x then ok (text_eq a b) else err malformed) ≡ ok true) e h))
]

is_confirmed-ok :
    (l : CodecLibrary) (found : Ring) (t : Text) → is_confirmed l found t ≡ ok true → found ≡ some t
unfolding is_confirmed
is_confirmed-ok l none t h = cc
is_confirmed-ok l (some confirmed) t h = ap some (same_digest-ok l confirmed t h)

read_ring-ok :
    (l : CodecLibrary) (returns : Bool) (ring found : Ring)
    → read_ring l returns ring ≡ ok found
    → found ≡ ring
unfolding read_ring
read_ring-ok l true ring found h = sym (ok-injective h)
read_ring-ok l false ring found h = cc

guard_true : (b : Bool) (e : Error) → not b ≡ false → b ≡ true
guard_true true e h = refl
guard_true false e h = cc

confirm-ok :
    (l : CodecLibrary) (env : KeyEnv) (g : Bytes) (t : Text) (ring : Ring) (key : Bytes)
    → confirm l env g t ring ≡ ok key
    → (ring ≡ some t) × (g ≡ key)
unfolding confirm
confirm-ok l env g t ring key h =
    let (found, read, h1) = >>=-eq-ok (read_ring l env.second_read ring) checked h in
    let (confirmed, same, h2) = >>=-eq-ok (is_confirmed l found t) guarded h1 in
    let (passed, h3) = after_guard (not confirmed) (vault master_key_write_failed) (ok g) h2 in
    let good = guard_true confirmed (vault master_key_write_failed) passed in
    (
      sym (read_ring-ok l env.second_read ring found read)
          ∙ is_confirmed-ok l found t (same ∙ ap ok good),
      ok-injective h3,
    )
  where
    guarded : Bool → Result Bytes
    guarded confirmed = raise_if (not confirmed) (vault master_key_write_failed) >> ok g

    checked : Ring → Result Bytes
    checked found = is_confirmed l found t >>= guarded

as_vault-ok :
    {A : Type 0} (reason : Reason) (r : Result A) {a : A} → as_vault reason r ≡ ok a → r ≡ ok a
as_vault-ok reason (ok a) h = h
as_vault-ok reason (err malformed) h = cc
as_vault-ok reason (err builtin) h = cc
as_vault-ok reason (err (privacy r)) h = cc
as_vault-ok reason (err (vault r)) h = cc
as_vault-ok reason (err (runtime r)) h = cc
as_vault-ok reason (err (responses r)) h = cc
as_vault-ok reason (err (messages r)) h = cc

module _ (l : CodecLibrary) (again : (b : Bytes) → l.b64_decode (l.b64_encode b) ≡ ok b)
    (env : KeyEnv) (sized : (g : Bytes) → env.random ≡ some g → length g ≡ master_key_bytes) where
  decode-encode :
      (g : Bytes) → length g ≡ master_key_bytes → decode_master_key l (l.b64_encode g) ≡ ok g
  unfolding decode_master_key
  decode-encode g size =
      let e : (length g == master_key_bytes) ≡ true = (==_iff (length g) master_key_bytes).1 size in
      rw (again g, e) refl

  store_key-IsKept :
      (g : Bytes) (ring : Ring) (key : Bytes)
      → length g ≡ master_key_bytes
      → (store_key l env g ring).1 ≡ ok key
      → IsKept l key (store_key l env g ring).0
  unfolding store_key
  store_key-IsKept g ring key size h =
      elim (Bool-cases (env.set_password (l.b64_encode g) ring).1) [
        | inl e ↦
            let (kept, same) =
              confirm-ok l env g (l.b64_encode g) (env.set_password (l.b64_encode g) ring).0 key (
                subst
                  (λ x.
                    (if x
                      then confirm l env g (l.b64_encode g)
                          (env.set_password (l.b64_encode g) ring).0
                      else err (vault master_key_write_failed))
                    ≡ ok key)
                  e h) in
            (l.b64_encode g, kept, decode-encode g size ∙ ap ok same)
        | inr e ↦ absurd (
            err≢ok (
              subst
                (λ x.
                  (if x
                    then confirm l env g (l.b64_encode g) (env.set_password (l.b64_encode g) ring).0
                    else err (vault master_key_write_failed))
                  ≡ ok key)
                e h))
      ]

  created_from-IsKept :
      (random : Option Bytes) (ring : Ring) (key : Bytes)
      → env.random ≡ random
      → (created_from l env random ring).1 ≡ ok key
      → IsKept l key (created_from l env random ring).0
  unfolding created_from
  created_from-IsKept none ring key e h = absurd (err≢ok h)
  created_from-IsKept (some g) ring key e h = store_key-IsKept g ring key (sized g e) h

  found_or_created-IsKept :
      (read : Result Ring) (ring : Ring) (key : Bytes)
      → ((found : Ring) → read ≡ ok found → found ≡ ring)
      → (found_or_created l env read ring).1 ≡ ok key
      → IsKept l key (found_or_created l env read ring).0
  unfolding found_or_created
  found_or_created-IsKept (err e) ring key same h = absurd (err≢ok h)
  found_or_created-IsKept (ok none) ring key same h = created_from-IsKept env.random ring key refl h
  found_or_created-IsKept (ok (some t)) ring key same h = (t, sym (same (some t) refl), h)

  with_lock-IsKept :
      (reply : LockReply) (ring : Ring) (key : Bytes)
      → (with_lock l env reply ring).1 ≡ ok key
      → IsKept l key (with_lock l env reply ring).0
  unfolding with_lock under_lock
  with_lock-IsKept refused ring key h = absurd (err≢ok h)
  with_lock-IsKept unreleased ring key h = absurd (err≢ok h)
  with_lock-IsKept acquired ring key h =
      found_or_created-IsKept read ring key same
        (as_vault-ok master_key_lock_failed (found_or_created l env read ring).1 h)
    where
      read : Result Ring
      read = approved_backend l env >> read_ring l env.first_read ring

      same : (found : Ring) → read ≡ ok found → found ≡ ring
      same found e =
          let (u, _, e1) =
            >>=-eq-ok (approved_backend l env) (λ x. read_ring l env.first_read ring) e in
          read_ring-ok l env.first_read ring found e1

  get_or_create-IsKept :
      (ring : Ring) (key : Bytes)
      → (get_or_create l env ring).1 ≡ ok key
      → IsKept l key (get_or_create l env ring).0
  unfolding get_or_create
  get_or_create-IsKept ring key h = elim (Bool-cases env.directory) [
    | inl e ↦
        subst (λ x. IsKept l key (entered x).0) (sym e)
          (with_lock-IsKept env.lock (env.others ring) key
            (subst (λ x. (entered x).1 ≡ ok key) e h))
    | inr e ↦ absurd (err≢ok (subst (λ x. (entered x).1 ≡ ok key) e h))
  ]
    where
      entered : Bool → Ring × Result Bytes
      entered x =
          if x
          then with_lock l env env.lock (env.others ring)
          else (ring, err (vault vault_directory_unavailable))

  -- If base64 is undone by its inverse, and `os.urandom` returns as many bytes as it was asked for:
  -- the key that `get_or_create` returns, found or created, whatever the keyring does, is the one that
  -- `load_existing` returns in any call that finds the keyring as it was left, with an approved
  -- backend that can be read.
  pub load_existing-get_or_create :
      (ring : Ring) (key : Bytes) (later : KeyEnv)
      → (get_or_create l env ring).1 ≡ ok key
      → later.backend ≡ approved
      → later.first_read ≡ true
      → load_existing l later (get_or_create l env ring).0 ≡ ok key
  unfolding load_existing approved_backend read_ring existing_key
  load_existing-get_or_create ring key later h b r =
      let (t, held, decoded) = kept in rw (b, r, held) decoded
    where
      kept : IsKept l key (get_or_create l env ring).0
      kept = get_or_create-IsKept ring key h
