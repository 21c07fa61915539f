-- ===== src/Protocols/Contract.antt =====
-- Contracts of the computations in `Walk`: how the state can change, which exceptions there can be,
-- and what holds of a result.
use mr_hide.Protocols.Walk.{Walk, continue, ◌>>=◌, lift, pure, raise, each, TextTransform}
use mr_hide.Prelude.{Text, ◌≡◌, Bool, true}
use mr_hide.Errors.{Error, Result, err, ok}
use mr_hide.Errors.Raises.{Ends, any_error}
use mr_hide.Json.{Json, Items, nil, cons}
use mr_hide.Policy.{ContentKind}

-- What holds of each item.
abbrev pub EveryItem : (Json → Type 0) → Items → Type 0
EveryItem Q nil = Unit
EveryItem Q (cons v vs) = Q v × EveryItem Q vs

-- The states that there can be, and how one can change.
pub record Course (S : Type 0) : Type 1 where
  pub Reached : S → Type 0
  pub Step : S → S → Type 0

-- Doing nothing is a step, and so are two steps; a step leads to a state that there can be.
pub record IsKept {S : Type 0} (course : Course S) : Type 0 where
  pub stays : (s : S) → course.Step s s
  pub goes_on : (a b c : S) → course.Step a b → course.Step b c → course.Step a c
  pub leads_on : (a b : S) → course.Reached a → course.Step a b → course.Reached b

module _ {S : Type 0} (course : Course S) (p : Error → Bool) where
  -- From every state that there can be, the computation makes a step, and ends as is said.
  abbrev pub Meets : {A : Type 0} → (A → Type 0) → Walk S A → Type 0
  Meets Q w = (s : S) → course.Reached s → course.Step s (w s).0 × Ends p Q (w s).1

  module _ (steps : IsKept course) where
    continue-Meets :
        {A B : Type 0} (Q : A → Type 0) (R : B → Type 0) (next : A → Walk S B) (s t : S)
        (outcome : Result A)
        → course.Reached s
        → course.Step s t
        → Ends p Q outcome
        → ((a : A) → Q a → Meets R (next a))
        → course.Step s (continue (t, outcome) next).0 × Ends p R (continue (t, outcome) next).1
    continue-Meets Q R next s t (ok a) r moved h k =
        let (later, ends) = k a h t (steps.leads_on s t r moved) in
        (steps.goes_on s t (next a t).0 moved later, ends)
    continue-Meets Q R next s t (err e) r moved h k = (moved, h)

    pub >>=-Meets :
        {A B : Type 0} (Q : A → Type 0) (R : B → Type 0) (first : Walk S A) (next : A → Walk S B)
        → Meets Q first
        → ((a : A) → Q a → Meets R (next a))
        → Meets R (first >>= next)
    >>=-Meets Q R first next h k s r =
        continue-Meets Q R next s (first s).0 (first s).1 r (h s r).0 (h s r).1 k

    pub pure-Meets : {A : Type 0} (Q : A → Type 0) (a : A) → Q a → Meets Q (pure a)
    pure-Meets Q a h s r = (steps.stays s, h)

    pub raise-Meets : {A : Type 0} (Q : A → Type 0) (e : Error) → p e ≡ true → Meets Q (raise e)
    raise-Meets Q e h s r = (steps.stays s, h)

    pub lift-Meets :
        {A : Type 0} (Q : A → Type 0) (outcome : Result A)
        → Ends p Q outcome
        → Meets Q (lift outcome)
    lift-Meets Q outcome h s r = (steps.stays s, h)

    -- Each item that the loop is given is one that the body takes.
    pub each-Meets :
        (D Q : Json → Type 0) (body : Json → Walk S Json) (vs : Items)
        → ((v : Json) → D v → Meets Q (body v))
        → EveryItem D vs
        → Meets (EveryItem Q) (each body vs)
    unfolding each
    each-Meets D Q body nil h every = pure-Meets (EveryItem Q) nil tt
    each-Meets D Q body (cons v vs) h every =
        >>=-Meets Q (EveryItem Q) (body v) _ (h v every.0) (λ w good.
          >>=-Meets (EveryItem Q) (EveryItem Q) (each body vs) _ (each-Meets D Q body vs h every.1)
            (λ ws rest. pure-Meets (EveryItem Q) (cons w ws) (good, rest)))

-- A transformation of texts: how its calls can change the state, and what holds of the texts that it
-- returns for each kind of content. Its exceptions can be any.
pub record Callback (S : Type 0) : Type 1 where
  pub transform : TextTransform S
  pub course : Course S
  pub steps : IsKept course
  pub Good : ContentKind → Text → Type 0
  pub released :
      (t : Text) (kind : ContentKind) → Meets course any_error (Good kind) (transform t kind)
