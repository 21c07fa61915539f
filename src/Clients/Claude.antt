-- ===== src/Clients/Claude.antt =====
-- src/mr_hide/clients/claude.py. `split_url` is the standard library's `urlsplit`, with `none` for
-- the `ValueError` that it and its properties raise.
pub mod Accepted
pub mod Laws
use mr_hide.Prelude.{
  ltb, ◌==◌, if◌then◌else◌, drop, Text, ℕ, ◌+◌, Bool, false, not, ◌&&◌, ◌||◌, Option, none, some,
  List, [], ◌∷◌, text, text_eq, is_prefix,
}
use mr_hide.Prelude.Dict.{Dict, put}
use mr_hide.Clients.Base.{
  LaunchSpec, Launch, launched, conflict, SplitUrl, is_local_endpoint, interpreted_args,
}

-- `text.partition("=")[2]`
unfoldable pub after_equals : Text → Text
after_equals [] = []
after_equals (c ∷ s) = if c == b'=' then s else after_equals s

-- `identity or None`
abbrev pub non_empty : Text → Option Text
non_empty [] = none
non_empty (c ∷ s) = some (c ∷ s)

-- `text.removeprefix("=")`
unfoldable pub without_equals : Text → Text
without_equals [] = []
without_equals (c ∷ s) = if c == b'=' then s else c ∷ s

unfoldable pub is_long_resume : Text → Bool
is_long_resume arg = is_prefix (text "--resume=") arg

unfoldable pub is_short_resume : Text → Bool
is_short_resume arg = is_prefix (text "-r") arg && not (text_eq arg (text "-r"))

unfoldable pub is_bare_resume : Text → Bool
is_bare_resume arg = text_eq arg (text "--resume") || text_eq arg (text "-r")

-- the argument behind a bare option
unfoldable pub next_identity : List Text → Option Text
next_identity [] = none
next_identity (arg ∷ args) = if is_prefix (text "-") arg then none else some arg

-- the loop of `resume_identity`
unfoldable pub find_identity : List Text → Option Text
find_identity [] = none
find_identity (arg ∷ args) =
    let rest = find_identity args in
    if is_long_resume arg
    then non_empty (after_equals arg)
    else if is_short_resume arg
    then non_empty (without_equals (drop 2 arg))
    else if is_bare_resume arg
    then next_identity args
    else rest

abbrev pub resume_identity : List Text → Option Text
resume_identity args = find_identity (interpreted_args args)

-- the options that the launcher owns, or that would hide the identity
unfoldable pub is_owned : Text → Bool
is_owned arg =
    (text_eq arg (text "--continue")
      || (text_eq arg (text "-c") || is_prefix (text "--continue=") arg))
    || ((text_eq arg (text "--session-id") || is_prefix (text "--session-id=") arg)
        || (text_eq arg (text "--fork-session") || is_prefix (text "--fork-session=") arg))

unfoldable pub is_resume : Text → Bool
is_resume arg = is_bare_resume arg || (is_long_resume arg || is_short_resume arg)

-- the loop of `validate_client_args`, with `resume_count`: whether it does not raise
unfoldable pub validate_loop : ℕ → List Text → Bool
validate_loop resume_count [] = not (ltb 1 resume_count)
validate_loop resume_count (arg ∷ args) =
    let rest = validate_loop (if is_resume arg then resume_count + 1 else resume_count) args in
    if is_owned arg then false else rest

abbrev pub is_valid_args : List Text → Bool
is_valid_args args = validate_loop 0 (interpreted_args args)

unfoldable pub base_url_key : Text
base_url_key = text "ANTHROPIC_BASE_URL"

-- whether `validate_local_endpoint` does not raise for the text of an endpoint
unfoldable pub is_local : (Text → Option SplitUrl) → Text → Bool
is_local split_url endpoint = elim (split_url endpoint) [
  | none ↦ false
  | some parsed ↦ is_local_endpoint parsed
]

unfoldable pub build_launch_spec :
    (Text → Option SplitUrl) → Text → Text → List Text → Dict Text → Launch LaunchSpec
build_launch_spec split_url executable endpoint args parent_env =
    if is_local split_url endpoint && is_valid_args args
    then launched (record {
      argv = executable ∷ args;
      client_args = args;
      env = put base_url_key endpoint parent_env;
      resume_identity = resume_identity args;
    })
    else conflict
