-- ===== src/Auth/Route/Tokens/Answers.antt =====
-- Every answer of the token endpoint.
use cc_orchestrator.Prelude.{
  ℕ, ◌≤◌, String, ◌≡◌, ◌⊎◌, inl, inr, refl, some, [], ◌∷◌, arith, ◌==◌, eq_iff, Bool-cases,
}
use cc_orchestrator.Action.{Env, World, Action}
use cc_orchestrator.Http.{
  Values, Read, Request, Writer, Response, fresh, get, set, del, set_header, serve, write_json,
}
use cc_orchestrator.Http.Answers.{
  Runs, Either, Any, pure-Runs, bind-Runs, map_error-Runs, Keeps-Runs, serve-Runs, lift-Runs,
}
use cc_orchestrator.Action.Keeps.{Keeps}
use cc_orchestrator.Auth.Errors.{
  Err, client, user, auth_code, refresh_token, unsupported_grant_type, ClientError, UserError,
  AuthCodeError, RefreshTokenError,
}
use cc_orchestrator.Auth.Service
use cc_orchestrator.Auth.Service.Dto.{TokenResponse}
use cc_orchestrator.Auth.Service.Login.{Server, on_db}
use cc_orchestrator.Auth.Route.{
  Body, Routes, OauthError, tokens, oauth_error, max_form_body_size, bad_request, read_or_refuse,
  parse_form_body,
}
use cc_orchestrator.Auth.Route.Errors.{
  set_token_no_cache_headers, token_error_code, shown_token_error, write_token_error,
}
use cc_orchestrator.Auth.Route.Tokens.{handle_token}

-- Tokens with 200, or an error of OAuth with a status of at least 400.
abbrev pub IsOutcome : ℕ → Body → Type 0
IsOutcome status body =
    ((status ≡ 200) × ((t : TokenResponse) × (body ≡ tokens t)))
    ⊎ ((400 ≤ status) × ((e : OauthError) × (body ≡ oauth_error e)))

-- The answer may not be stored, and is an outcome.
abbrev pub IsAnswer : Response Body → Type 0
IsAnswer resp =
    (get "Cache-Control" resp.headers ≡ "no-store")
    × (get "Pragma" resp.headers ≡ "no-cache")
    × IsOutcome resp.status resp.body

-- An error without a code is answered as an error of the server.
token_error_code-status : (e : Err) → ((token_error_code e).1 ≡ "") ⊎ (400 ≤ (token_error_code e).0)
unfolding token_error_code
token_error_code-status unsupported_grant_type = inr (omega arith)
token_error_code-status (client ClientError.unsupported_grant_type) = inr (omega arith)
token_error_code-status (client ClientError.invalid_client_id) = inr (omega arith)
token_error_code-status (client ClientError.not_found) = inr (omega arith)
token_error_code-status (client ClientError.auth_failed) = inr (omega arith)
token_error_code-status (user UserError.not_found) = inr (omega arith)
token_error_code-status (auth_code AuthCodeError.not_found) = inr (omega arith)
token_error_code-status (auth_code AuthCodeError.already_consumed) = inr (omega arith)
token_error_code-status (auth_code AuthCodeError.expired) = inr (omega arith)
token_error_code-status (auth_code AuthCodeError.redirect_uri_mismatch) = inr (omega arith)
token_error_code-status (auth_code AuthCodeError.client_mismatch) = inr (omega arith)
token_error_code-status (auth_code AuthCodeError.pkce_verification_failed) = inr (omega arith)
token_error_code-status (auth_code AuthCodeError.invalid_code_verifier) = inr (omega arith)
token_error_code-status (refresh_token RefreshTokenError.invalid_scope) = inr (omega arith)
token_error_code-status (refresh_token RefreshTokenError.not_found) = inr (omega arith)
token_error_code-status (refresh_token RefreshTokenError.reused) = inr (omega arith)
token_error_code-status (refresh_token RefreshTokenError.client_mismatch) = inr (omega arith)
token_error_code-status (refresh_token RefreshTokenError.expired) = inr (omega arith)
token_error_code-status _ = inl refl

-- The headers of the token endpoint.
abbrev no_cache : Writer
no_cache = record {
  headers = ("Cache-Control", "no-store") ∷ ("Pragma", "no-cache") ∷ [];
  cookies = [];
}

no_cache_headers : set_token_no_cache_headers fresh ≡ no_cache
unfolding set_token_no_cache_headers set_header set del
no_cache_headers = refl

no_cache_again : set_token_no_cache_headers no_cache ≡ no_cache
unfolding set_token_no_cache_headers set_header set del
no_cache_again = refl

write_json-IsAnswer :
    (status : ℕ) (body : Body) → IsOutcome status body → IsAnswer (write_json no_cache status body)
unfolding write_json set del get
write_json-IsAnswer status body h = (refl, refl, h)

shown_token_error-IsAnswer :
    (status : ℕ) (code description : String)
    → (code ≡ "") ⊎ (400 ≤ status)
    → IsAnswer (shown_token_error no_cache (status, code, description))
shown_token_error-IsAnswer status code description h = elim (Bool-cases (code == "")) [
  | inl empty ↦ rw empty (write_json-IsAnswer 500 _ (inr (omega arith, (_, refl))))
  | inr full ↦
      rw full (write_json-IsAnswer status _ (inr (ground (arith, eq_iff code ""), (_, refl))))
]

write_token_error-IsAnswer : (e : Err) → IsAnswer (write_token_error no_cache e)
unfolding write_token_error
write_token_error-IsAnswer e =
    rw no_cache_again (shown_token_error-IsAnswer _ _ _ (token_error_code-status e))

module _ (h : Routes) (r : Request) where
  bad_request-IsAnswer : (description : String) → IsAnswer (bad_request no_cache description)
  unfolding bad_request
  bad_request-IsAnswer description = write_json-IsAnswer 400 _ (inr (omega arith, (_, refl)))

  form-Runs : Runs Any IsAnswer Any (parse_form_body no_cache r)
  unfolding parse_form_body
  form-Runs = lift-Runs _ (go (r.form (some max_form_body_size)))
    where
      go : (o : Read Values) → Either IsAnswer Any (read_or_refuse no_cache "malformed form body" o)
      go (Read.done a) = tt
      go Read.too_large = bad_request-IsAnswer _
      go Read.malformed = bad_request-IsAnswer _

  anything-Keeps : {A : Type 0} (m : Action Err Server A) → Keeps Any m
  anything-Keeps m = record { keeps = λ env w any. tt }

  handle_token-Runs : Runs Any IsAnswer IsAnswer (handle_token h r)
  unfolding handle_token set_token_no_cache_headers set_header set del
  handle_token-Runs = bind-Runs form-Runs λ form any.
      bind-Runs
        (map_error-Runs (write_token_error no_cache)
          (Keeps-Runs (anything-Keeps (on_db (Service.token h.svc _))))
          (λ e any. write_token_error-IsAnswer e))
        λ resp any. pure-Runs _ (write_json-IsAnswer 200 _ (inl (refl, (resp, refl))))

  -- Whatever it is sent, the token endpoint answers with tokens and 200, or with an error of OAuth and a status
  -- of at least 400, and with headers that forbid to store the answer.
  pub handle_token-IsAnswer :
      (env : Env) (w : World Server) → IsAnswer (serve (handle_token h r) env w).0
  handle_token-IsAnswer env w = serve-Runs handle_token-Runs env w tt
