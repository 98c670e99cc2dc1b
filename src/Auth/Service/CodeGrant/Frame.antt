-- ===== src/Auth/Service/CodeGrant/Frame.antt =====
-- Issuing tokens leaves the authorization codes alone, and the code grant keeps what the statements
-- on them keep.
use cc_orchestrator.Prelude.{
  String, ◌≡◌, List, Option, none, some, ◌&&◌, not, leb, false, Bool, ◌==◌,
}
use cc_orchestrator.Action.{Time}
use cc_orchestrator.Action.Keeps.{
  Keeps, pure-Keeps, raise-Keeps, lift-Keeps, query-Keeps, fail_if-Keeps, time_now-Keeps,
  rand_read-Keeps, if_Keeps, bind-Keeps,
}
use cc_orchestrator.Auth.Errors.{Err}
use cc_orchestrator.Auth.Client.{Client}
use cc_orchestrator.Auth.User.{User}
use cc_orchestrator.Auth.AuthCode
use cc_orchestrator.Auth.AuthCode.{AuthorizationCode}
use cc_orchestrator.Auth.RefreshToken
use cc_orchestrator.Auth.RefreshToken.{RefreshToken}
use cc_orchestrator.Auth.RefreshTokens
use cc_orchestrator.Auth.RefreshTokens.Statements.{insert_refresh_token, inserted, hash_of}
use cc_orchestrator.Auth.Db.Table.{insert, delete, has_key, has_key-keep}
use cc_orchestrator.Auth.Db.{Db, AuthCodeRow, RefreshTokenRow}
use cc_orchestrator.Auth.Directory.Reads.{find_client-Keeps, find_user-Keeps}
use cc_orchestrator.Auth.AuthCodes
use cc_orchestrator.Auth.AuthCodes.Statements.{
  consume_auth_code, delete_expired_auth_code, get_active_auth_code, code_of,
}
use cc_orchestrator.Auth.Claims.{new_access_token_claims, new_id_token_claims}
use cc_orchestrator.Auth.Service.Dto.{AuthorizationService, TokenRequest, sign_claims}
use cc_orchestrator.Auth.Service.CodeGrant.{
  authenticated_client, redeem, issue_refresh_token, issue_tokens, authorization_code_grant,
}

module _ {P : Db → Type 0} where
  pub authenticated_client-Keeps :
      (s : AuthorizationService) (req : TokenRequest) (g : String)
      → Keeps P (authenticated_client s req g)
  unfolding authenticated_client
  authenticated_client-Keeps s req g = bind-Keeps (lift-Keeps _) λ cid.
      bind-Keeps (find_client-Keeps s.platform cid)
        λ c. bind-Keeps (fail_if-Keeps _ _) λ _. bind-Keeps (fail_if-Keeps _ _) λ _. pure-Keeps c

  pub access_claims-Keeps : (i s a v : String) → Keeps {E = Err} P (new_access_token_claims i s a v)
  unfolding new_access_token_claims
  access_claims-Keeps i s a v = bind-Keeps time_now-Keeps λ now. pure-Keeps _

  pub id_claims-Keeps :
      (i s a n m e : String) (t : Time) (h : String)
      → Keeps {E = Err} P (new_id_token_claims i s a n m e t h)
  unfolding new_id_token_claims
  id_claims-Keeps i s a n m e t h = bind-Keeps time_now-Keeps λ now. pure-Keeps _

module _ (Q : List AuthCodeRow → Type 0) where
  pub save_token-Keeps : (rt : RefreshToken) → Keeps (λ db. Q db.auth_codes) (RefreshTokens.save rt)
  unfolding RefreshTokens.save insert_refresh_token
  save_token-Keeps rt = query-Keeps _ _ λ now db h.
      go db (insert hash_of (RefreshTokens.insert_refresh_token_params rt) db.refresh_tokens) h
    where
      go :
          (db : Db) (o : Option (List RefreshTokenRow))
          → Q db.auth_codes
          → Q (inserted o db).1.auth_codes
      go db none h = h
      go db (some rows) h = h

  issue-Keeps :
      (s : AuthorizationService) (c : Client) (owner : User) (ac : AuthorizationCode)
      → Keeps (λ db. Q db.auth_codes) (issue_refresh_token s c owner ac)
  unfolding issue_refresh_token RefreshToken.issue RefreshToken.new_token RefreshToken.new_family_id
  issue-Keeps s c owner ac =
      if_Keeps _
        (bind-Keeps (lift-Keeps _) λ scope.
          bind-Keeps
            (bind-Keeps (bind-Keeps (rand_read-Keeps _ _) λ _. pure-Keeps _) λ _.
              bind-Keeps (bind-Keeps (rand_read-Keeps _ _) λ _. pure-Keeps _)
                λ _. bind-Keeps time_now-Keeps λ _. pure-Keeps _)
            λ issued. bind-Keeps (save_token-Keeps issued.0) λ _. pure-Keeps _)
        (pure-Keeps _)

  pub issue_tokens-Keeps :
      (s : AuthorizationService) (c : Client) (ac : AuthorizationCode)
      → Keeps (λ db. Q db.auth_codes) (issue_tokens s c ac)
  unfolding issue_tokens sign_claims
  issue_tokens-Keeps s c ac = bind-Keeps (lift-Keeps _) λ uid.
      bind-Keeps (find_user-Keeps uid) λ owner. bind-Keeps (access_claims-Keeps _ _ _ _) λ _.
        bind-Keeps (lift-Keeps _) λ _. bind-Keeps (id_claims-Keeps _ _ _ _ _ _ _ _) λ _.
          bind-Keeps (lift-Keeps _) λ _. bind-Keeps (issue-Keeps s c owner ac) λ _. pure-Keeps _

-- No row stands under the code.
abbrev pub Absent : String → Db → Type 0
Absent code db = has_key code_of code db.auth_codes ≡ false

module _ (code : String) where
  delete-Absent :
      (p : AuthCodeRow → Bool) (db : Db)
      → Absent code db
      → Absent code (record db { auth_codes = delete p db.auth_codes })
  delete-Absent p db h = has_key-keep code_of (λ r. not (p r)) code db.auth_codes h

  found_or_evict-Keeps :
      (c : String) (row : Option AuthCodeRow) → Keeps (Absent code) (AuthCodes.found_or_evict c row)
  unfolding AuthCodes.found_or_evict delete_expired_auth_code
  found_or_evict-Keeps c none =
      bind-Keeps
        (query-Keeps _ _ λ now db h. delete-Absent (λ r. r.code == c && leb r.expires_at now) db h)
        λ _. raise-Keeps _
  found_or_evict-Keeps c (some row) = lift-Keeps _

  find_by_code-Keeps : (c : String) → Keeps (Absent code) (AuthCodes.find_by_code c)
  unfolding AuthCodes.find_by_code get_active_auth_code
  find_by_code-Keeps c = bind-Keeps (query-Keeps _ _ λ now db h. h) (found_or_evict-Keeps c)

  claimed-Keeps : (o : Option Time) → Keeps (Absent code) (AuthCodes.claimed o)
  unfolding AuthCodes.claimed
  claimed-Keeps none = raise-Keeps _
  claimed-Keeps (some t) = bind-Keeps time_now-Keeps λ _. fail_if-Keeps _ _

  consume-Keeps : (c : String) → Keeps (Absent code) (AuthCodes.consume c)
  unfolding AuthCodes.consume consume_auth_code
  consume-Keeps c =
      bind-Keeps (query-Keeps _ _ λ now db h. delete-Absent (λ r. r.code == c) db h) claimed-Keeps

  redeem-Keeps :
      (s : AuthorizationService) (req : TokenRequest) (c : Client)
      → Keeps (Absent code) (redeem s req c)
  unfolding redeem AuthCode.verify AuthCode.is_expired
  redeem-Keeps s req c = bind-Keeps (lift-Keeps _) λ parsed.
      bind-Keeps (find_by_code-Keeps parsed) λ ac.
        bind-Keeps
          (bind-Keeps (fail_if-Keeps _ _) λ _.
            bind-Keeps (bind-Keeps time_now-Keeps λ _. pure-Keeps _) λ _.
              bind-Keeps (fail_if-Keeps _ _) λ _.
                bind-Keeps (fail_if-Keeps _ _)
                  λ _. bind-Keeps (fail_if-Keeps _ _) λ _. lift-Keeps _)
          λ _. bind-Keeps (consume-Keeps ac.code) λ _. pure-Keeps ac

  pub authorization_code_grant-Keeps :
      (s : AuthorizationService) (req : TokenRequest)
      → Keeps (Absent code) (authorization_code_grant s req)
  unfolding authorization_code_grant
  authorization_code_grant-Keeps s req = bind-Keeps (authenticated_client-Keeps s req _) λ c.
      bind-Keeps (redeem-Keeps s req c)
        λ ac. issue_tokens-Keeps (λ rows. has_key code_of code rows ≡ false) s c ac
