-- ===== src/Clients/Base.antt =====
-- src/mr_hide/clients/base.py.
use mr_hide.Prelude.{
  if◌then◌else◌, Text, ℕ, Bool, true, false, not, ◌&&◌, ◌||◌, Option, none, some, List, [], ◌∷◌,
  text, text_eq,
}
use mr_hide.Prelude.Dict.{Dict}
use mr_hide.Privacy.Models.{is_empty}

pub record LaunchSpec : Type 0 where
  pub argv : List Text
  pub client_args : List Text
  pub env : Dict Text
  pub resume_identity : Option Text

-- What a builder returns: a specification, or an exception, `LaunchConflict` or the `ValueError` of
-- `urlsplit`, of which the former is a subclass.
pub data Launch (A : Type 0) : Type 0 where
  launched : A → Launch A
  conflict : Launch A

-- `urlsplit(endpoint)`, whose properties can be missing
pub record SplitUrl : Type 0 where
  pub scheme : Text
  pub username : Option Text
  pub password : Option Text
  pub hostname : Option Text
  pub port : Option ℕ
  pub url_path : Text
  pub query : Text
  pub fragment : Text

abbrev pub is_missing : {A : Type 0} → Option A → Bool
is_missing none = true
is_missing (some a) = false

unfoldable pub is_loopback : Option Text → Bool
is_loopback none = false
is_loopback (some host) =
    text_eq host (text "127.0.0.1")
    || (text_eq host (text "localhost") || text_eq host (text "::1"))

-- whether `validate_local_endpoint` does not raise
unfoldable pub is_local_endpoint : SplitUrl → Bool
is_local_endpoint parsed =
    text_eq parsed.scheme (text "http")
    && (is_missing parsed.username
        && (is_missing parsed.password
            && (is_loopback parsed.hostname
                && (not (is_missing parsed.port)
                    && ((is_empty parsed.url_path || text_eq parsed.url_path (text "/"))
                        && (is_empty parsed.query && is_empty parsed.fragment))))))

-- the arguments before `--`
unfoldable pub interpreted_args : List Text → List Text
interpreted_args [] = []
interpreted_args (arg ∷ args) =
    let rest = interpreted_args args in if text_eq arg (text "--") then [] else arg ∷ rest
