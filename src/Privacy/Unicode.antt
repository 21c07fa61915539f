-- ===== src/Privacy/Unicode.antt =====
-- The Unicode tables of Python's `str` and `unicodedata` that the privacy core reads.
use mr_hide.Prelude.{ℕ, Bool, Text}

pub record Unicode : Type 0 where
  -- `unicodedata.normalize("NFKC", s)`, `s.casefold()`, `s.upper()`
  pub nfkc : Text → Text
  pub casefold : Text → Text
  pub upper : Text → Text
  -- `c.isalnum()`, and `c.isspace()`, which is also `\s` of `re`
  pub is_alnum : ℕ → Bool
  pub is_space : ℕ → Bool
