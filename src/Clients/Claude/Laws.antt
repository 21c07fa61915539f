-- ===== src/Clients/Claude/Laws.antt =====
-- What src/mr_hide/clients/claude.py promises about the launched client.
-- The loop of `validate_client_args` is a count.
use mr_hide.Prelude.{
  if◌then◌else◌, Bool-cases, Option-cases, length, any, keep, Text, ℕ, ◌+◌, ◌≤◌, ◌≡◌, sym, ap, ◌∙◌,
  ◌↔◌, inl, inr, true, false, ◌&&◌, Option, some, List, [], ◌∷◌, arith, text, text_eq,
}
use mr_hide.Prelude.Dict.{Dict, get, put, get-put}
use mr_hide.Clients.Base.{LaunchSpec, launched, conflict, SplitUrl, interpreted_args}
use mr_hide.Clients.Claude.{
  resume_identity, is_owned, is_resume, validate_loop, is_valid_args, base_url_key, is_local,
  build_launch_spec,
}
use mr_hide.Clients.Claude.Accepted.{
  IsLoopback, Accepted, is_local_endpoint-IsLoopback, single_resume, All-of_owned, cut,
}

validate_loop_lem :
    (count : ℕ) (args : List Text)
    → (validate_loop count args ≡ true)
      ↔ ((any is_owned args ≡ false) × (count + length (keep is_resume args) ≤ 1))
unfolding validate_loop
validate_loop_lem count [] = ground arith
validate_loop_lem count (arg ∷ args) =
    ground (arith, validate_loop_lem count args, validate_loop_lem (count + 1) args)

-- The client is launched only at an endpoint of plain HTTP with a port on 127.0.0.1, localhost or
-- ::1, with no user, password, path but a slash, query or fragment; with the arguments as they
-- were given, of which, before the first --, none is --continue, -c, --session-id or
-- --fork-session, nor one of the long ones with a value behind =, and at most one is --resume or
-- begins with --resume= or -r; its environment is that of the parent, but for ANTHROPIC_BASE_URL,
-- which is the endpoint.
pub build_launch_spec_lem :
    (split_url : Text → Option SplitUrl) (executable endpoint : Text) (args : List Text)
    (parent_env : Dict Text) (spec : LaunchSpec) (key : Text)
    → build_launch_spec split_url executable endpoint args parent_env ≡ launched spec
    → ((parsed : SplitUrl) × (split_url endpoint ≡ some parsed) × IsLoopback parsed)
      × (spec.argv ≡ executable ∷ args)
      × ((front : List Text) × Accepted args front)
      × (get key spec.env
          ≡ (if text_eq (text "ANTHROPIC_BASE_URL") key then some endpoint else get key parent_env))
unfolding build_launch_spec base_url_key
build_launch_spec_lem split_url executable endpoint args parent_env spec key h =
    elim (Bool-cases (is_local split_url endpoint && is_valid_args args)) [
      | inr e ↦ absurd (refused (rw e at h))
      | inl e ↦
          let made : launched built ≡ launched spec = rw e at h in
          let same = launched-injective made in
          let kept =
            ap (λ s. get key s.env) (sym same) ∙ get-put base_url_key key endpoint parent_env in
          let (free, single) = (validate_loop_lem 0 (interpreted_args args)).0 (valid e) in
          let (rest, split, ends, before) = cut args in
          (
            local e,
            ap (λ s. s.argv) (sym same),
            (
              interpreted_args args,
              record {
                rest = rest;
                split = split;
                ends = ends;
                before = before;
                free = All-of_owned (interpreted_args args) free;
                single = single_resume (interpreted_args args) (omega (arith, single));
              },
            ),
            kept,
          )
    ]
  where
    built : LaunchSpec
    built = record {
      argv = executable ∷ args;
      client_args = args;
      env = put base_url_key endpoint parent_env;
      resume_identity = resume_identity args;
    }

    refused : conflict ≡ launched spec → ⊥
    refused e = cc

    launched-injective : {a b : LaunchSpec} → launched a ≡ launched b → a ≡ b
    launched-injective e = cc

    valid : (is_local split_url endpoint && is_valid_args args) ≡ true → is_valid_args args ≡ true
    valid e = ground arith

    local :
        (is_local split_url endpoint && is_valid_args args) ≡ true
        → (parsed : SplitUrl) × (split_url endpoint ≡ some parsed) × IsLoopback parsed
    local e = elim (Option-cases (split_url endpoint)) [
      | inl none_split ↦ unfold is_local in ground arith
      | inr (parsed, split) ↦
          (parsed, split, is_local_endpoint-IsLoopback parsed (unfold is_local in ground arith))
    ]
