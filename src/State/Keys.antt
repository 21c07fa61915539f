-- ===== src/State/Keys.antt =====
-- The class `MasterKeyManager` of src/mr_hide/state/keys.py. A keyring has one password for the
-- service and the account, or none; what it does in a call of the manager, and what the operating
-- system answers, is a `KeyEnv`.
pub mod Laws
mod Examples
use mr_hide.Prelude.{
  ltb, ◌==◌, if◌then◌else◌, length, all, Text, Bool, false, not, ◌&&◌, Option, none, some, text_eq,
}
use mr_hide.Errors.{
  master_key_missing, master_key_invalid, keyring_unavailable, keyring_not_approved,
  master_key_read_failed, master_key_generation_failed, master_key_write_failed,
  master_key_lock_failed, vault_directory_unavailable, vault, malformed, Result, err, ok, ◌>>=◌,
  ◌>>◌, raise_if,
}
use mr_hide.State.Store.{Bytes, LockReply, acquired, refused, unreleased}
use mr_hide.State.Leaves.{CodecLibrary, master_key_bytes, as_vault, unless_malformed}

abbrev pub Ring : Type 0
Ring = Option Text

-- `keyring.get_keyring` with the approved types can raise, and can give a type that is not approved.
pub data BackendReply : Type 0 where
  approved unavailable not_approved : BackendReply

pub record KeyEnv : Type 0 where
  -- what other processes do before the lock is held
  pub others : Ring → Ring
  pub directory : Bool
  pub lock : LockReply
  pub backend : BackendReply
  -- whether `get_password` returns, at the first call and at the second
  pub first_read : Bool
  pub second_read : Bool
  -- `os.urandom(32)`, which can raise
  pub random : Option Bytes
  -- `set_password`: what the keyring holds afterwards, and whether it returns
  pub set_password : Text → Ring → Ring × Bool

-- A computation on the keyring that can raise.
abbrev pub OnRing : Type 0 → Type 0
OnRing A = Ring → Ring × Result A

module _ (l : CodecLibrary) where
  unfoldable pub decode_master_key : Text → Result Bytes
  decode_master_key value = do
    decoded ← unless_malformed master_key_invalid (l.b64_decode value)
    raise_if (not (length decoded == master_key_bytes)) (vault master_key_invalid)
    ok decoded

  unfoldable pub approved_backend : KeyEnv → Result (Unit {0})
  approved_backend env = elim env.backend [
    | approved ↦ ok tt
    | unavailable ↦ err (vault keyring_unavailable)
    | not_approved ↦ err (vault keyring_not_approved)
  ]

  -- `_read`, with whether `get_password` returns
  unfoldable pub read_ring : Bool → Ring → Result Ring
  read_ring returns ring = if returns then ok ring else err (vault master_key_read_failed)

  unfoldable pub existing_key : Ring → Result Bytes
  existing_key none = err (vault master_key_missing)
  existing_key (some encoded) = decode_master_key encoded

  unfoldable pub load_existing : KeyEnv → Ring → Result Bytes
  load_existing env ring = do
    approved_backend env
    encoded ← read_ring env.first_read ring
    existing_key encoded

  -- `hmac.compare_digest` of two texts, which raises at one that is not ASCII
  unfoldable pub same_digest : Text → Text → Result Bool
  same_digest a b =
      if all (λ c. ltb c 128) a && all (λ c. ltb c 128) b then ok (text_eq a b) else err malformed

  -- `confirmed is None or not …`
  unfoldable pub is_confirmed : Ring → Text → Result Bool
  is_confirmed none serialized = ok false
  is_confirmed (some confirmed) serialized = same_digest confirmed serialized

  -- what is read behind the writing
  unfoldable pub confirm : KeyEnv → Bytes → Text → Ring → Result Bytes
  confirm env generated serialized ring = do
    found ← read_ring env.second_read ring
    confirmed ← is_confirmed found serialized
    raise_if (not confirmed) (vault master_key_write_failed)
    ok generated

  unfoldable pub store_key : KeyEnv → Bytes → OnRing Bytes
  store_key env generated ring =
      let serialized = l.b64_encode generated in
      let (ring', returned) = env.set_password serialized ring in
      (
        ring',
        if returned
            then confirm env generated serialized ring'
            else err (vault master_key_write_failed),
      )

  -- what `os.urandom` returns is stored
  unfoldable pub created_from : KeyEnv → Option Bytes → OnRing Bytes
  created_from env none ring = (ring, err (vault master_key_generation_failed))
  created_from env (some generated) ring = store_key env generated ring

  -- what is done with the answer of `_read`
  unfoldable pub found_or_created : KeyEnv → Result Ring → OnRing Bytes
  found_or_created env (err e) ring = (ring, err e)
  found_or_created env (ok none) ring = created_from env env.random ring
  found_or_created env (ok (some encoded)) ring = (ring, decode_master_key encoded)

  -- the body of `with portalocker.Lock(…)`
  unfoldable pub under_lock : KeyEnv → OnRing Bytes
  under_lock env ring =
      found_or_created env (approved_backend env >> read_ring env.first_read ring) ring

  -- what the lock makes of it
  unfoldable pub with_lock : KeyEnv → LockReply → OnRing Bytes
  with_lock env refused ring = (ring, err (vault master_key_lock_failed))
  with_lock env acquired ring =
      let (ring', reply) = under_lock env ring in (ring', as_vault master_key_lock_failed reply)
  with_lock env unreleased ring =
      let (ring', reply) = under_lock env ring in (ring', err (vault master_key_lock_failed))

  unfoldable pub get_or_create : KeyEnv → OnRing Bytes
  get_or_create env ring =
      if env.directory
      then with_lock env env.lock (env.others ring)
      else (ring, err (vault vault_directory_unavailable))
