-- ===== src/Auth/Platform.antt =====
-- What the authorization server computes with libraries: SHA-256, bcrypt and URL parsing.
use cc_orchestrator.Prelude.{ℕ, String, Bool, Option, List}

-- The parts of a `url.URL` that the program reads.
pub record Url : Type 0 where
  pub scheme : String
  pub host : String

pub record Platform : Type 0 where
  -- sha256.Sum256 of a text's bytes
  pub sha256 : String → List ℕ
  -- bcrypt.CompareHashAndPassword(hash, password) == nil
  pub bcrypt_matches : String → String → Bool
  -- url.Parse; `none` is its error
  pub parse_url : String → Option Url
