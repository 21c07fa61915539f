-- ===== src/Clients/Examples.antt =====
-- The theorem about src/mr_hide/clients/claude.py at one launch.
use mr_hide.Prelude.{
  if◌then◌else◌, Text, ◌≡◌, refl, Option, none, some, List, [], ◌∷◌, text, text_eq, is_prefix,
}
use mr_hide.Prelude.Dict.{Dict, get, put}
use mr_hide.Clients.Base.{
  LaunchSpec, launched, SplitUrl, is_loopback, is_local_endpoint, interpreted_args,
}
use mr_hide.Clients.Claude.{
  after_equals, without_equals, is_long_resume, is_short_resume, is_bare_resume, next_identity,
  find_identity, is_owned, is_resume, validate_loop, base_url_key, is_local, build_launch_spec,
}
use mr_hide.Clients.Claude.Laws.{build_launch_spec_lem}
use mr_hide.Clients.Claude.Accepted.{IsLoopback, Accepted}

abbrev split_local : Text → Option SplitUrl
unfolding text
split_local t = some (record {
  scheme = text "http";
  username = none;
  password = none;
  hostname = some (text "127.0.0.1");
  port = some 8080;
  url_path = [];
  query = [];
  fragment = [];
})

abbrev local_endpoint : Text
unfolding text
local_endpoint = text "http://127.0.0.1:8080"

abbrev given_args : List Text
unfolding text
given_args = text "--resume" ∷ text "abc" ∷ text "--" ∷ text "-c" ∷ []

abbrev parent : Dict Text
unfolding text
parent = (text "HOME", text "/root") ∷ []

abbrev client : Text
unfolding text
client = text "claude"

abbrev launch : LaunchSpec
unfolding base_url_key text
launch = record {
  argv = client ∷ given_args;
  client_args = given_args;
  env = (text "HOME", text "/root") ∷ (base_url_key, local_endpoint) ∷ [];
  resume_identity = some (text "abc");
}

launch_run : build_launch_spec split_local client local_endpoint given_args parent ≡ launched launch
unfolding text text_eq is_prefix put interpreted_args is_loopback is_local_endpoint is_local
    after_equals without_equals is_long_resume is_short_resume is_bare_resume next_identity
    find_identity is_owned is_resume validate_loop base_url_key build_launch_spec split_local
    local_endpoint given_args parent client launch
launch_run = refl

build_launch_spec_lem_example :
    ((parsed : SplitUrl) × (split_local local_endpoint ≡ some parsed) × IsLoopback parsed)
    × (launch.argv ≡ client ∷ given_args)
    × ((front : List Text) × Accepted given_args front)
    × (get base_url_key launch.env ≡ (
        if text_eq (text "ANTHROPIC_BASE_URL") base_url_key
        then some local_endpoint
        else get base_url_key parent))
build_launch_spec_lem_example =
    build_launch_spec_lem split_local client local_endpoint given_args parent launch base_url_key
      launch_run
