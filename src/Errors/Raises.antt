-- ===== src/Errors/Raises.antt =====
-- Which exceptions a computation can raise.
use mr_hide.Prelude.{◌≡◌, refl, Bool, true, false}
use mr_hide.Errors.{Error, vault, Result, err, ok, ◌>>=◌, ◌>>◌, raise_if}

-- A result that has the property, or one of these exceptions.
abbrev pub Ends {ℓ} : {A : Type ℓ} → (Error → Bool) → (A → Type 0) → Result A → Type 0
Ends p Q (ok a) = Q a
Ends p Q (err e) = p e ≡ true

abbrev pub is_vault : Error → Bool
is_vault (vault r) = true
is_vault _ = false

pub >>=-Ends {ℓ κ} :
    {A : Type ℓ} {B : Type κ} (p : Error → Bool) (Q : A → Type 0) (R : B → Type 0)
    (first : Result A) (next : A → Result B)
    → Ends p Q first
    → ((a : A) → Q a → Ends p R (next a))
    → Ends p R (first >>= next)
>>=-Ends p Q R (ok a) next h k = k a h
>>=-Ends p Q R (err e) next h k = h

pub guard-Ends {ℓ} :
    {A : Type ℓ} (p : Error → Bool) (R : A → Type 0) (b : Bool) (e : Error) (next : Result A)
    → p e ≡ true
    → Ends p R next
    → Ends p R (raise_if b e >> next)
guard-Ends p R true e next h k = h
guard-Ends p R false e next h k = k

-- any exception
abbrev pub any_error : Error → Bool
any_error e = true

-- A result that can have no other exceptions, by its own value.
pub Ends-of_ok {ℓ} :
    {A : Type ℓ} (Q : A → Type 0) (r : Result A) → ((a : A) → r ≡ ok a → Q a) → Ends any_error Q r
Ends-of_ok Q (ok a) h = h a refl
Ends-of_ok Q (err e) h = refl

pub >>=-any {ℓ κ} :
    {A : Type ℓ} {B : Type κ} (R : B → Type 0) (first : Result A) (next : A → Result B)
    → ((a : A) → Ends any_error R (next a))
    → Ends any_error R (first >>= next)
>>=-any R (ok a) next k = k a
>>=-any R (err e) next k = refl

pub Ends-map {ℓ} :
    {A : Type ℓ} (p : Error → Bool) (Q R : A → Type 0) (r : Result A)
    → ((a : A) → Q a → R a)
    → Ends p Q r
    → Ends p R r
Ends-map p Q R (ok a) f h = f a h
Ends-map p Q R (err e) f h = h
