-- ===== src/State/Codec/Laws.antt =====
-- What is relied on of Python and of the package `cryptography` by src/mr_hide/state/codec.py.
use mr_hide.Prelude.{◌==◌, any, Text, ℕ, ◌<◌, ◌≡◌, true, false, ◌++◌, text}
use mr_hide.Json.{Json, Hooks, hooked, sort_keys, JsonLibrary, has_unique_keys}
use mr_hide.Errors.{ok}
use mr_hide.State.Models.{aware}
use mr_hide.State.Store.{Bytes}
use mr_hide.State.Leaves.{CodecLibrary}

-- behind the last microsecond of the year 9999
abbrev pub instants : ℕ
instants = 315537897600000000

-- JSON with sorted keys that was written is read again, and the hooks are called on it.
abbrev pub IsRead : JsonLibrary → Type 0
IsRead json =
    (h : Hooks) (document : Json) (payload : Text)
    → has_unique_keys document ≡ true
    → json.dumps_sorted document ≡ ok payload
    → json.loads h payload ≡ hooked h (sort_keys document)

-- A text behind which `+00:00` stands for UTC: it has neither this sign nor the letter.
abbrev pub IsLocal : Text → Type 0
unfolding text
IsLocal t = (any (λ c. c == b'+') t ≡ false) × (any (λ c. c == b'Z') t ≡ false)

pub record IsFaithful (l : CodecLibrary) : Type 0 where
  pub read_again : IsRead l.json
  pub unsealed :
      (key nonce plaintext context ciphertext : Bytes)
      → l.seal key nonce plaintext context ≡ ok ciphertext
      → l.unseal key nonce ciphertext context ≡ ok plaintext
  pub b64_again : (b : Bytes) → l.b64_decode (l.b64_encode b) ≡ ok b
  -- the text of an instant in UTC without its offset
  pub local_time : ℕ → Text
  pub local_time-IsLocal : (n : ℕ) → n < instants → IsLocal (local_time n)
  pub in_utc : (n : ℕ) → n < instants → l.isoformat n ≡ local_time n ++ text "+00:00"
  pub iso_again : (n : ℕ) → n < instants → l.from_isoformat (l.isoformat n) ≡ ok (aware n)
