-- ===== src/Clients/Claude/Accepted.antt =====
-- What src/mr_hide/clients/base.py and claude.py accept, of endpoints and of arguments.
use mr_hide.Prelude.{
  Bool-cases, length, any, keep, All, Has, All-of_Has, Text, text_eq_iff, ℕ, ◌≤◌, ◌≡◌, refl, sym,
  ap, ◌∙◌, ◌≢◌, ◌⊎◌, inl, inr, Bool, true, false, not, ◌||◌, Option, none, some, List, [], ◌∷◌,
  ◌++◌, arith, text, text_eq, is_prefix,
}
use mr_hide.Prelude.Parts.{is_prefix_iff}
use mr_hide.Prelude.Sorting.{Ordered, All-imp}
use mr_hide.Clients.Base.{SplitUrl, is_missing, is_loopback, is_local_endpoint, interpreted_args}
use mr_hide.Clients.Claude.{is_long_resume, is_short_resume, is_bare_resume, is_owned, is_resume}
use mr_hide.Privacy.Models.{is_empty}

-- The text begins with the other.
abbrev pub BeginsWith : Text → Text → Type 0
BeginsWith start t = (rest : Text) × (t ≡ start ++ rest)

-- An endpoint of plain HTTP on the loopback interface, with a port, and with nothing else but a slash.
pub record IsLoopback (parsed : SplitUrl) : Type 0 where
  pub plain : parsed.scheme ≡ text "http"
  pub no_username : parsed.username ≡ none
  pub no_password : parsed.password ≡ none
  pub own_host :
      (parsed.hostname ≡ some (text "127.0.0.1"))
      ⊎ ((parsed.hostname ≡ some (text "localhost")) ⊎ (parsed.hostname ≡ some (text "::1")))
  pub has_port : (port : ℕ) × (parsed.port ≡ some port)
  pub no_path : (parsed.url_path ≡ []) ⊎ (parsed.url_path ≡ text "/")
  pub no_query : parsed.query ≡ []
  pub no_fragment : parsed.fragment ≡ []

-- An argument that is none of the options that the launcher owns, with or without a value.
pub record IsFree (arg : Text) : Type 0 where
  pub no_continue : (arg ≢ text "--continue") × (arg ≢ text "-c")
  pub no_continue_value : ¬ BeginsWith (text "--continue=") arg
  pub no_session : (arg ≢ text "--session-id") × (¬ BeginsWith (text "--session-id=") arg)
  pub no_fork : (arg ≢ text "--fork-session") × (¬ BeginsWith (text "--fork-session=") arg)

-- An option that names a conversation to resume; `-r` begins its other spelling, too.
abbrev pub Resumes : Text → Type 0
Resumes arg =
    (arg ≡ text "--resume") ⊎ (BeginsWith (text "--resume=") arg ⊎ BeginsWith (text "-r") arg)

-- The arguments before the first `--`: all of which are free, and of which at most one resumes.
pub record Accepted (args front : List Text) : Type 0 where
  pub rest : List Text
  pub split : args ≡ front ++ rest
  pub ends : (rest ≡ []) ⊎ ((more : List Text) × (rest ≡ text "--" ∷ more))
  pub before : ¬ Has (text "--") front
  pub free : All IsFree front
  pub single : Ordered (λ a b. ¬ (Resumes a × Resumes b)) front

true≢false : true ≢ false
true≢false e = cc

not_equal : (s t : Text) → text_eq s t ≡ false → s ≢ t
not_equal s t h e = true≢false (sym ((text_eq_iff s t).1 e) ∙ h)

not_led : (s t : Text) → is_prefix s t ≡ false → ¬ BeginsWith s t
not_led s t h led = true≢false (sym ((is_prefix_iff s t).1 led) ∙ h)

is_empty-eq : (s : Text) → is_empty s ≡ true → s ≡ []
is_empty-eq [] h = refl
is_empty-eq (c ∷ s) h = cc

is_missing-eq : {A : Type 0} (o : Option A) → is_missing o ≡ true → o ≡ none
is_missing-eq none h = refl
is_missing-eq (some a) h = cc

present : {A : Type 0} (o : Option A) → not (is_missing o) ≡ true → (a : A) × (o ≡ some a)
present none h = cc
present (some a) h = (a, refl)

is_loopback-host :
    (o : Option Text)
    → is_loopback o ≡ true
    → (o ≡ some (text "127.0.0.1")) ⊎ ((o ≡ some (text "localhost")) ⊎ (o ≡ some (text "::1")))
unfolding is_loopback
is_loopback-host none h = cc
is_loopback-host (some t) h = elim (Bool-cases (text_eq t (text "127.0.0.1"))) [
  | inl e ↦ inl (ap some ((text_eq_iff t (text "127.0.0.1")).0 e))
  | inr e1 ↦ elim (Bool-cases (text_eq t (text "localhost"))) [
    | inl e ↦ inr (inl (ap some ((text_eq_iff t (text "localhost")).0 e)))
    | inr e2 ↦ inr (inr (ap some ((text_eq_iff t (text "::1")).0 (ground arith))))
  ]
]

bare_path : (s : Text) → (is_empty s || text_eq s (text "/")) ≡ true → (s ≡ []) ⊎ (s ≡ text "/")
bare_path [] h = inl refl
bare_path (c ∷ s) h = inr ((text_eq_iff (c ∷ s) (text "/")).0 h)

pub is_local_endpoint-IsLoopback :
    (parsed : SplitUrl) → is_local_endpoint parsed ≡ true → IsLoopback parsed
unfolding is_local_endpoint
is_local_endpoint-IsLoopback parsed h = record {
  plain = (text_eq_iff parsed.scheme (text "http")).0 (ground arith);
  no_username = is_missing-eq parsed.username (ground arith);
  no_password = is_missing-eq parsed.password (ground arith);
  own_host = is_loopback-host parsed.hostname (ground arith);
  has_port = present parsed.port (ground arith);
  no_path = bare_path parsed.url_path (ground arith);
  no_query = is_empty-eq parsed.query (ground arith);
  no_fragment = is_empty-eq parsed.fragment (ground arith);
}

is_owned-IsFree : (arg : Text) → is_owned arg ≡ false → IsFree arg
unfolding is_owned
is_owned-IsFree arg h = record {
  no_continue =
      (not_equal arg (text "--continue") (ground arith), not_equal arg (text "-c") (ground arith));
  no_continue_value = not_led (text "--continue=") arg (ground arith);
  no_session = (
    not_equal arg (text "--session-id") (ground arith),
    not_led (text "--session-id=") arg (ground arith),
  );
  no_fork = (
    not_equal arg (text "--fork-session") (ground arith),
    not_led (text "--fork-session=") arg (ground arith),
  );
}

Resumes-is_resume : (arg : Text) → Resumes arg → is_resume arg ≡ true
unfolding is_resume is_bare_resume is_long_resume is_short_resume
Resumes-is_resume arg (inl e) =
    let same : text_eq arg (text "--resume") ≡ true = (text_eq_iff arg (text "--resume")).1 e in
    ground arith
Resumes-is_resume arg (inr (inl led)) =
    let same : is_prefix (text "--resume=") arg ≡ true =
      (is_prefix_iff (text "--resume=") arg).1 led in
    ground arith
Resumes-is_resume arg (inr (inr led)) =
    let same : is_prefix (text "-r") arg ≡ true = (is_prefix_iff (text "-r") arg).1 led in
    ground arith

none_kept : (p : Text → Bool) (xs : List Text) → length (keep p xs) ≤ 0 → All (λ x. p x ≡ false) xs
none_kept p [] h = tt
none_kept p (x ∷ xs) h = (ground arith, none_kept p xs (ground arith))

pub single_resume :
    (args : List Text)
    → length (keep is_resume args) ≤ 1
    → Ordered (λ a b. ¬ (Resumes a × Resumes b)) args
single_resume [] h = tt
single_resume (arg ∷ args) h = elim (Bool-cases (is_resume arg)) [
  | inl e ↦ (
    All-imp (λ x. is_resume x ≡ false) (λ b. ¬ (Resumes arg × Resumes b)) args
        (λ b other (_, r). true≢false (sym (Resumes-is_resume b r) ∙ other))
        (none_kept is_resume args (ground arith)),
    single_resume args (ground arith),
  )
  | inr e ↦ (
    All-of_Has (λ b. ¬ (Resumes arg × Resumes b)) args
        (λ b m (r, _). true≢false (sym (Resumes-is_resume arg r) ∙ e)),
    single_resume args (ground arith),
  )
]

pub All-of_owned : (args : List Text) → any is_owned args ≡ false → All IsFree args
All-of_owned [] h = tt
All-of_owned (arg ∷ args) h = (is_owned-IsFree arg (ground arith), All-of_owned args (ground arith))

-- what `interpreted_args` returns, and what it leaves
pub cut :
    (args : List Text)
    → (rest : List Text) × (args ≡ interpreted_args args ++ rest)
      × ((rest ≡ []) ⊎ ((more : List Text) × (rest ≡ text "--" ∷ more)))
      × (¬ Has (text "--") (interpreted_args args))
unfolding interpreted_args
cut [] = ([], refl, inl refl, λ m. absurd m)
cut (arg ∷ args) = elim (Bool-cases (text_eq arg (text "--"))) [
  | inl e ↦
      let same = (text_eq_iff arg (text "--")).0 e in
      rw e (arg ∷ args, refl, inr (args, ap (λ x. x ∷ args) same), λ m. absurd m)
  | inr e ↦
      let (rest, split, ends, before) = cut args in
      rw e (
        rest,
        ap (◌∷◌ arg) split,
        ends,
        λ m. elim m [ inl same ↦ not_equal arg (text "--") e same | inr later ↦ before later ],
      )
]
