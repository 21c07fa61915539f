-- ===== src/State/Store.antt =====
-- src/mr_hide/state/store.py. The vault files of the directory are pairs of a conversation's number
-- and the bytes of its file. What the operating system answers in one call of the repository, and
-- what other processes do before it gets its lock, is an `Env`.
use mr_hide.Prelude.{
  ltb, ◌==◌, if◌then◌else◌, length, ℕ, ◌+◌, ◌*◌, Bool, true, false, ◌||◌, Option, none, some, List,
  [], ◌∷◌, map,
}
use mr_hide.Errors.{
  vault_lock_failed, vault_list_failed, vault_list_too_large, vault_too_large, vault_missing,
  vault_read_failed, vault_write_invalid, vault_write_failed, vault_delete_failed, vault, Result,
  err, ok,
}
use mr_hide.Prelude.Sorting.{sorted}

abbrev pub Bytes : Type 0
Bytes = List ℕ

abbrev pub Files : Type 0
Files = List (ℕ × Bytes)

unfoldable pub lookup : ℕ → Files → Option Bytes
lookup n [] = none
lookup n ((k, p) ∷ files) = if k == n then some p else lookup n files

-- `os.replace(temporary_path, target)`
unfoldable pub replace : ℕ → Bytes → Files → Files
replace n p [] = (n, p) ∷ []
replace n p ((k, q) ∷ files) = if k == n then (k, p) ∷ files else (k, q) ∷ replace n p files

-- `unlink()`
unfoldable pub unlink : ℕ → Files → Files
unlink n [] = []
unlink n ((k, q) ∷ files) = let rest = unlink n files in if k == n then rest else (k, q) ∷ rest

-- `portalocker.Lock`: entering can fail, and so can leaving.
pub data LockReply : Type 0 where
  acquired refused unreleased : LockReply

-- `write_unlocked` can meet an `OSError` before the new file is in place, or behind that.
pub data WriteReply : Type 0 where
  replaced unwritten replaced_unsynced : WriteReply

-- The same of `delete_unlocked`; at last the directory itself can be missing when it is synced.
pub data DeleteReply : Type 0 where
  unlinked undeleted unlinked_unsynced unlinked_unrooted : DeleteReply

pub record Env : Type 0 where
  pub others : Files → Files
  pub lock : LockReply
  pub readable : Bool
  pub write : WriteReply
  pub delete : DeleteReply
  -- whether the directory can be listed, and how many `*.vault` files have another name in it
  pub listable : Bool
  pub foreign : ℕ
  -- the ports: the replies of the key provider, and of the nonce factory
  pub load_existing : Result Bytes
  pub get_or_create : Result Bytes
  pub nonce : Result Bytes

abbrev pub max_vault_bytes : ℕ
max_vault_bytes = 32 * 1024 * 1024

abbrev pub max_vault_files : ℕ
max_vault_files = 10000

-- A computation on the files that can raise. The files stay as they are at an exception.
abbrev pub Io : Type 0 → Type 0
Io A = Files → Files × Result A

-- what follows a computation that is done
abbrev pub continue : {A B : Type 0} → Files × Result A → (A → Io B) → Files × Result B
continue (files, ok a) next = next a files
continue (files, err e) next = (files, err e)

-- A result that can be an exception, and what is done with it.
abbrev pub given : {A B : Type 0} → Result A → (A → Io B) → Io B
given r next files = continue (files, r) next

abbrev pub and_then : {A B : Type 0} → Io A → (A → Io B) → Io B
and_then first next files = continue (first files) next

abbrev pub pure : {A : Type 0} → A → Io A
pure a files = (files, ok a)

-- `except Exception: raise VaultError("vault-lock-failed")`, behind `except VaultError: raise`
abbrev pub as_vault_error : {A : Type 0} → Result A → Result A
as_vault_error (ok a) = ok a
as_vault_error (err (vault reason)) = err (vault reason)
as_vault_error (err e) = err (vault vault_lock_failed)

-- `with self._store.lock(conversation_id)`
unfoldable pub locked : {A : Type 0} → Env → Io A → Io A
locked env body files =
    let found = env.others files in
    let (files', reply) = body found in
    elim env.lock [
      | refused ↦ (found, err (vault vault_lock_failed))
      | acquired ↦ (files', as_vault_error reply)
      | unreleased ↦ (files', err (vault vault_lock_failed))
    ]

abbrev pub exists_unlocked : ℕ → Files → Bool
exists_unlocked n files = elim (lookup n files) [ none ↦ false | some p ↦ true ]

unfoldable pub read_unlocked : Env → ℕ → Files → Result Bytes
read_unlocked env n files = elim (lookup n files) [
  | none ↦ err (vault vault_missing)
  | some p ↦
      if env.readable
      then (if ltb max_vault_bytes (length p) then err (vault vault_too_large) else ok p)
      else err (vault vault_read_failed)
]

unfoldable pub write_unlocked : Env → ℕ → Bytes → Io (Unit {0})
write_unlocked env n p files =
    if length p == 0 || ltb max_vault_bytes (length p)
    then (files, err (vault vault_write_invalid))
    else elim env.write [
      | replaced ↦ (replace n p files, ok tt)
      | unwritten ↦ (files, err (vault vault_write_failed))
      | replaced_unsynced ↦ (replace n p files, err (vault vault_write_failed))
    ]

unfoldable pub delete_unlocked : Env → ℕ → Io Bool
delete_unlocked env n files = elim (lookup n files) [
  | none ↦ (files, ok false)
  | some p ↦ elim env.delete [
    | unlinked ↦ (unlink n files, ok true)
    | undeleted ↦ (files, err (vault vault_delete_failed))
    | unlinked_unsynced ↦ (unlink n files, err (vault vault_delete_failed))
    | unlinked_unrooted ↦ (unlink n files, ok false)
  ]
]

-- The texts of two identifiers, of one length in hexadecimal, stand in the order of the numbers.
unfoldable pub conversation_ids : Env → Io (List ℕ)
conversation_ids env files =
    let found = env.others files in
    let ids = map (λ f. f.0) found in
    (
      found,
      if env.listable
          then (if ltb max_vault_files (length ids + env.foreign)
              then err (vault vault_list_too_large)
              else ok (sorted ltb ids))
          else err (vault vault_list_failed),
    )
