-- ===== src/State/Keys/Examples.antt =====
-- The theorem about src/mr_hide/state/keys.py at an empty keyring.
use mr_hide.Prelude.{length, ◌≡◌, refl, subst, true, none, some, text_eq}
use mr_hide.Errors.{ok}
use mr_hide.Fixtures.{library, key_bytes}
use mr_hide.State.Leaves.{master_key_bytes}
use mr_hide.State.Store.{Bytes, acquired}
use mr_hide.State.Keys.{
  approved, KeyEnv, approved_backend, read_ring, load_existing, same_digest, is_confirmed, confirm,
  store_key, created_from, found_or_created, under_lock, with_lock, get_or_create,
}
use mr_hide.State.Keys.Laws.{load_existing-get_or_create}

abbrev fresh : KeyEnv
fresh = record {
  others = λ ring. ring;
  directory = true;
  lock = acquired;
  backend = approved;
  first_read = true;
  second_read = true;
  random = some key_bytes;
  set_password = λ t ring. (some t, true);
}

some-injective : {A : Type 0} {a b : A} → some a ≡ some b → a ≡ b
some-injective e = cc

fresh_random_sized : (g : Bytes) → fresh.random ≡ some g → length g ≡ master_key_bytes
fresh_random_sized g same = subst (λ x. length x ≡ master_key_bytes) (some-injective same) refl

created : (get_or_create library fresh none).1 ≡ ok key_bytes
unfolding get_or_create with_lock under_lock found_or_created created_from store_key confirm
    is_confirmed same_digest read_ring approved_backend library text_eq
created = refl

load_existing-get_or_create_example :
    load_existing library fresh (get_or_create library fresh none).0 ≡ ok key_bytes
load_existing-get_or_create_example =
    load_existing-get_or_create library (λ b. unfold library in refl) fresh fresh_random_sized none
      key_bytes fresh created refl refl
