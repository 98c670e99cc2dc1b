-- ===== src/Auth/Service/Authorize/Verified.antt =====
-- The redirect_uri that a validation, or the issue of a code, answers with is a registered one.
use mathlib.Core.Path.{subst}
use cc_orchestrator.Prelude.{
  String, ◌≡◌, ◌⊎◌, inl, inr, refl, ap, sym, Bool, true, false, Option, none, some, List, Result,
  ok, err, contains, arith, ◌==◌, Bool-cases,
}
use cc_orchestrator.Action.{Time, Action, lift, statement, fail_if}
use cc_orchestrator.Action.Keeps.{
  Keeps, bind-Keeps, time_now-Keeps, rand_read-Keeps, pure-Keeps, query-Keeps,
}
use cc_orchestrator.Http.Answers.{
  Runs, Either, Any, pure-Runs, raise-Runs, bind-Runs, map_error-Runs, Keeps-Runs, lift-Runs,
}
use cc_orchestrator.Auth.Errors.{Err}
use cc_orchestrator.Auth.Client.{Client, parse_client_id, new_redirect_uri, validate_redirect_uri}
use cc_orchestrator.Auth.User.{User}
use cc_orchestrator.Auth.AuthCode
use cc_orchestrator.Auth.AuthCode.{AuthorizationCode, new_code}
use cc_orchestrator.Auth.AuthCode.Scopes.{Scope}
use cc_orchestrator.Auth.AuthCode.Challenge.{CodeChallenge}
use cc_orchestrator.Auth.AuthCodes
use cc_orchestrator.Auth.AuthCodes.Statements.{insert_auth_code, inserted, code_of}
use cc_orchestrator.Auth.Db.{Db, ClientRow, AuthCodeRow}
use cc_orchestrator.Auth.Db.Table.{select, insert}
use cc_orchestrator.Auth.Directory.{find_client, found_client, get_client_by_id, row_to_client}
use cc_orchestrator.Auth.Service.Dto.{AuthorizationService, AuthorizeRequest, AuthorizeResult}
use cc_orchestrator.Auth.Service.Authorize.{
  Refusal, refuse, no_result, check_request, validate_authorize, authorize_owner, authorize,
}
use cc_orchestrator.Auth.Service.Authorize.Redirect.{
  located, find_redirect_uri-ok, new_redirect_uri-ok,
}

module _ {E S : Type 0} {P : S → Type 0} {Φ : E → Type 0} where
  fail_if-Runs : (b : Bool) (e : E) → Φ e → Runs P Φ Any (fail_if b e)
  unfolding fail_if
  fail_if-Runs true e h = record { runs = λ env w p. (p, h) }
  fail_if-Runs false e h = record { runs = λ env w p. (p, tt) }

module _ (s : AuthorizationService) (rows : List ClientRow) (req : AuthorizeRequest) where
  -- The redirect_uri is the requested one, and the client of the request is in the table and has it.
  abbrev pub IsVerified : String → Type 0
  IsVerified uri =
      (row : ClientRow) × (c : Client) × (select (λ r. r.id == req.client_id) rows ≡ some row)
      × (row_to_client s.platform row ≡ ok c)
      × (contains c.redirect_uris req.redirect_uri ≡ true)
      × (uri ≡ req.redirect_uri)

  -- The table of the clients is this one.
  abbrev pub OnClients : Db → Type 0
  OnClients db = db.clients ≡ rows

  -- A refusal names a verified redirect_uri, or none.
  abbrev pub IsRefusal : Refusal → Type 0
  IsRefusal (result, e) = (result.redirect_uri ≡ "") ⊎ IsVerified result.redirect_uri

  abbrev pub IsFound : Client → Type 0
  IsFound c =
      (row : ClientRow) × (select (λ r. r.id == req.client_id) rows ≡ some row)
      × (row_to_client s.platform row ≡ ok c)

  abbrev IsSelected : Option ClientRow → Type 0
  IsSelected row = select (λ r. r.id == req.client_id) rows ≡ row

  select_client-Runs :
      (failure : Err)
      → Runs OnClients Any IsSelected (statement failure (get_client_by_id req.client_id))
  unfolding statement get_client_by_id
  select_client-Runs failure = record {
    runs = λ env w p. elim (Bool-cases (env.outage w.step)) [
      | inl down ↦ rw down (p, tt)
      | inr up ↦ rw up (p, ap (select (λ (r : ClientRow). r.id == req.client_id)) (sym p))
    ];
  }

  found_client-Runs :
      (row : Option ClientRow)
      → IsSelected row
      → Runs OnClients Any IsFound (found_client s.platform row)
  unfolding found_client
  found_client-Runs none e = raise-Runs _ tt
  found_client-Runs (some row) e = lift-Runs _ (go (row_to_client s.platform row) refl)
    where
      go : (r : Result Err Client) → row_to_client s.platform row ≡ r → Either Any IsFound r
      go (ok c) k = (row, e, k)
      go (err x) k = tt

  find_client-Runs : Runs OnClients Any IsFound (find_client s.platform req.client_id)
  unfolding find_client
  find_client-Runs = bind-Runs (select_client-Runs _) found_client-Runs

  refuse-Runs :
      {A : Type 0} {Ψ : A → Type 0} (result : AuthorizeResult) {m : Action Err Db A}
      → (result.redirect_uri ≡ "") ⊎ IsVerified result.redirect_uri
      → Runs OnClients Any Ψ m
      → Runs OnClients IsRefusal Ψ (refuse result m)
  refuse-Runs result h k = map_error-Runs (λ e. (result, e)) k (λ e any. h)

  refuse-lift-Runs :
      {A : Type 0} (result : AuthorizeResult) (r : Result Err A)
      → (result.redirect_uri ≡ "") ⊎ IsVerified result.redirect_uri
      → Runs OnClients IsRefusal Any (refuse result (lift r))
  refuse-lift-Runs {A} result r h = refuse-Runs result h (lift-Runs r (go r))
    where
      go : (r : Result Err A) → Either Any Any r
      go (ok a) = tt
      go (err e) = tt

  check_request-Runs :
      (c : Client) (verified : AuthorizeResult)
      → IsVerified verified.redirect_uri
      → Runs OnClients IsRefusal
          (λ result. IsVerified result.redirect_uri)
          (check_request c req verified)
  unfolding check_request
  check_request-Runs c verified h = bind-Runs (fail_if-Runs _ _ (inr h)) λ _ _.
      bind-Runs (fail_if-Runs _ _ (inr h)) λ _ _.
        bind-Runs (refuse-lift-Runs verified _ (inr h)) λ scope _.
          bind-Runs (fail_if-Runs _ _ (inr h)) λ _ _.
            bind-Runs (refuse-lift-Runs verified _ (inr h)) λ method _.
              bind-Runs (refuse-lift-Runs verified _ (inr h)) λ _ _. pure-Runs verified h

  pub same_id :
      (r : Result Err String)
      → parse_client_id req.client_id ≡ r
      → Either Any (λ id. id ≡ req.client_id) r
  unfolding parse_client_id
  same_id (ok id) h = ground arith
  same_id (err e) h = tt

  pub same_uri :
      (r : Result Err String)
      → new_redirect_uri s.platform req.redirect_uri ≡ r
      → Either Any (λ uri. uri ≡ req.redirect_uri) r
  same_uri (ok uri) h = new_redirect_uri-ok s req.redirect_uri h
  same_uri (err e) h = tt

  pub has_uri :
      (c : Client) (uri : String) (r : Result Err (Unit {0}))
      → validate_redirect_uri c uri ≡ r
      → Either Any (λ _. contains c.redirect_uris uri ≡ true) r
  unfolding validate_redirect_uri
  has_uri c uri (ok tt) h = find_redirect_uri-ok c.redirect_uris uri h
  has_uri c uri (err e) h = tt

  pub find_client_at-Runs :
      (cid : String) → cid ≡ req.client_id → Runs OnClients Any IsFound (find_client s.platform cid)
  find_client_at-Runs cid same =
      subst (λ id. Runs OnClients Any IsFound (find_client s.platform id)) (sym same)
        find_client-Runs

  pub validate_authorize-Runs :
      Runs OnClients IsRefusal (λ result. IsVerified result.redirect_uri) (validate_authorize s req)
  unfolding validate_authorize
  validate_authorize-Runs =
      bind-Runs (refuse-Runs no_result (inl refl) (lift-Runs _ (same_id _ refl))) λ cid same.
        bind-Runs (refuse-Runs no_result (inl refl) (find_client_at-Runs cid same))
          λ c (row, selected, read).
            bind-Runs (refuse-Runs no_result (inl refl) (lift-Runs _ (same_uri _ refl)))
              λ uri same'.
                bind-Runs (refuse-Runs no_result (inl refl) (lift-Runs _ (has_uri c uri _ refl)))
                  λ _ has. check_request-Runs c (located uri) (
                    row,
                    c,
                    selected,
                    read,
                    subst (λ u. contains c.redirect_uris u ≡ true) same' has,
                    same',
                  )

  new-Keeps :
      (cid uid uri : String) (scope : Scope) (nonce : String) (challenge : CodeChallenge) (t : Time)
      → Keeps OnClients (AuthCode.new cid uid uri scope nonce challenge t)
  unfolding AuthCode.new new_code
  new-Keeps cid uid uri scope nonce challenge t =
      bind-Keeps (bind-Keeps (rand_read-Keeps _ _) λ bytes. pure-Keeps _)
        λ code. bind-Keeps time_now-Keeps λ now. pure-Keeps _

  save-Keeps : (ac : AuthorizationCode) → Keeps OnClients (AuthCodes.save ac)
  unfolding AuthCodes.save insert_auth_code
  save-Keeps ac =
      query-Keeps _ _
        λ now db h. go db (insert code_of (AuthCodes.insert_auth_code_params ac) db.auth_codes) h
    where
      go : (db : Db) (o : Option (List AuthCodeRow)) → OnClients db → OnClients (inserted o db).1
      go db none h = h
      go db (some rows') h = h

  authorize_owner-Runs :
      (owner : User)
      → Runs OnClients IsRefusal
          (λ result. IsVerified result.redirect_uri)
          (authorize_owner s req owner)
  unfolding authorize_owner
  authorize_owner-Runs owner = bind-Runs validate_authorize-Runs λ verified h.
      bind-Runs (refuse-lift-Runs verified _ (inr h)) λ cid _.
        bind-Runs (refuse-lift-Runs verified _ (inr h)) λ scope _.
          bind-Runs (refuse-lift-Runs verified _ (inr h)) λ method _.
            bind-Runs (refuse-lift-Runs verified _ (inr h)) λ challenge _.
              bind-Runs (refuse-Runs verified (inr h) (Keeps-Runs (new-Keeps _ _ _ _ _ _ _)))
                λ ac _.
                  bind-Runs (refuse-Runs verified (inr h) (Keeps-Runs (save-Keeps ac)))
                    λ _ _. pure-Runs _ h

  pub authorize-Runs :
      (owner : User)
      → Runs OnClients IsRefusal
          (λ result. IsVerified result.redirect_uri)
          (authorize s req (some owner))
  unfolding authorize
  authorize-Runs owner = authorize_owner-Runs owner
