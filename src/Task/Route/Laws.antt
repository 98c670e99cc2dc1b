-- ===== src/Task/Route/Laws.antt =====
-- Which requests reach the handlers of the task API.
use mathlib.Core.Path.{subst}
use cc_orchestrator.Prelude.{
  ℕ, String, false, ◌≡◌, ◌≢◌, ◌⊎◌, inl, inr, refl, ap, sym, Option, none, some, ok, err, ◌==◌,
  eq_iff, arith, Bool-cases,
}
use cc_orchestrator.Http.Laws.{serve-bind, map_error-eq-ok, map_error-eq-err, on_part-eq}
use cc_orchestrator.GoText.{cut_prefix}
use cc_orchestrator.Action.{World, Env, lift, ◌>>=◌, ◌>>◌}
use cc_orchestrator.Http.{Request, Response, Handler, get, serve, write_json}
use cc_orchestrator.Task.Jwt
use cc_orchestrator.Task.Jwt.{JwtError, Cache}
use cc_orchestrator.Task.Jwt.Laws.{IsVerified, verify-IsVerified}
use cc_orchestrator.Task.Route.{Body, Api, Verifier, verify_token, check_token, auth_middleware}

module _ {Key : Type 0} (v : Verifier Key) (next : Request → Handler Body (Api Key) (Response Body))
    (r : Request) (env : Env) (w : World (Api Key)) where
  -- The request presents a token that verifies, and the handler answers; the table is as it was when the
  -- handler begins.
  abbrev pub IsAdmitted : Response Body × World (Api Key) → Type 0
  IsAdmitted answer =
      (t : String) × (u : World (Api Key)) × (n : ℕ) × (cut_prefix (get "Authorization" r.headers)
          "Bearer "
        ≡ some t)
      × (t ≢ "")
      × IsVerified v.libraries v.issuer v.audience t (env.clock n) u.store.cache
      × (u.store.rows ≡ w.store.rows)
      × (answer ≡ serve (next r) env u)

  -- The request is answered with 401, and the table is as it was.
  abbrev pub IsRefused : Response Body × World (Api Key) → Type 0
  IsRefused (resp, u) = (resp.status ≡ 401) × (u.store.rows ≡ w.store.rows)

  refused :
      (t : String) (x : Response Body) (u : World (Api Key))
      → verify_token v t env w ≡ (err x, u)
      → IsRefused (x, u)
  unfolding verify_token write_json
  refused t x u k =
      let (e, k', same) = map_error-eq-err _ _ env w u x k in
      let (c, k'', u_eq) =
        on_part-eq _ _ (Jwt.verify v.libraries v.issuer v.audience t) env w u _ k' in
      (ap (λ (y : Response Body). y.status) same, ap (λ (y : World (Api Key)). y.store.rows) u_eq)

  admitted :
      (t : String)
      → cut_prefix (get "Authorization" r.headers) "Bearer " ≡ some t
      → (t == "") ≡ false
      → (u : World (Api Key)) → verify_token v t env w ≡ (ok tt, u)
      → IsAdmitted (serve (next r) env u)
  unfolding verify_token
  admitted t e full u k =
      let k' = map_error-eq-ok _ _ env w u tt k in
      let (c, k'', u_eq) =
        on_part-eq _ _ (Jwt.verify v.libraries v.issuer v.audience t) env w u _ k' in
      let (n, step, token_verified) =
        verify-IsVerified v.libraries v.issuer v.audience t env
          (record { step = w.step; store = w.store.cache }) c k'' in
      (
        t,
        u,
        n,
        e,
        ground (arith, eq_iff t ""),
        subst
            (λ (y : World (Api Key)).
              IsVerified v.libraries v.issuer v.audience t (env.clock n) y.store.cache)
            (sym u_eq) token_verified,
        ap (λ (y : World (Api Key)). y.store.rows) u_eq,
        refl,
      )

  -- A token that is there either verifies, and the handler answers, or it is refused.
  check_token-cases :
      (token : Option String)
      → cut_prefix (get "Authorization" r.headers) "Bearer " ≡ token
      → IsAdmitted (serve (check_token v token >> next r) env w)
        ⊎ IsRefused (serve (check_token v token >> next r) env w)
  unfolding check_token serve write_json lift ◌>>=◌
  check_token-cases none e = inr (refl, refl)
  check_token-cases (some t) e = elim (Bool-cases (t == "")) [
    | inl empty ↦ inr (rw empty (refl, refl))
    | inr full ↦ rw full (
        serve-bind (λ a. IsAdmitted a ⊎ IsRefused a) (verify_token v t) (λ x. next r) env w
          (λ x u k. inr (refused t x u k)) (λ x u k. inl (admitted t e full u k)))
  ]

  -- Behind the middleware with a verifier, either the handler answers a request whose bearer token
  -- verified, on the table as it was, or the answer is 401 and the table is as it was.
  pub auth_middleware-admits :
      IsAdmitted (serve (auth_middleware (some v) next r) env w)
      ⊎ IsRefused (serve (auth_middleware (some v) next r) env w)
  unfolding auth_middleware
  auth_middleware-admits =
      check_token-cases (cut_prefix (get "Authorization" r.headers) "Bearer ") refl
