-- ===== src/Auth/Service/CodeGrant/Authenticated.antt =====
-- Who the client of a token request is, and that it has authenticated.
use cc_orchestrator.Prelude.{
  String, ◌≡◌, true, false, not, ◌&&◌, some, none, ok, arith, ◌⊎◌, inl, inr, ◌≢◌, refl, Option,
  Option-cases, contains, ◌==◌, eq_iff,
}
use cc_orchestrator.Action.{Env, World, pure, lift, fail_if, ◌>>=◌}
use mathlib.Core.Path.{subst}
use cc_orchestrator.Action.Keeps.{>>=-eq-ok}
use cc_orchestrator.Auth.Client.{
  Client, parse_client_id, supports_grant_type, is_confidential, verify_secret, verify_hash,
}
use cc_orchestrator.Auth.Platform.{Platform}
use cc_orchestrator.Auth.Db.Table.{select}
use cc_orchestrator.Auth.Db.{Db, ClientRow}
use cc_orchestrator.Auth.Directory.{find_client, row_to_client}
use cc_orchestrator.Auth.Directory.Reads.{find_client_reads, IsStored, find_client-IsStored}
use cc_orchestrator.Auth.Service.Dto.{AuthorizationService, TokenRequest}
use cc_orchestrator.Auth.Service.CodeGrant.{authenticated_client}

-- The client of a request has authenticated and may use the grant; nothing was changed.
pub authenticated_client-ok :
    (s : AuthorizationService) (req : TokenRequest) (g : String) (env : Env) (w w' : World Db)
    {c : Client}
    → authenticated_client s req g env w ≡ (ok c, w')
    → (supports_grant_type c g ≡ true)
      × ((is_confidential c && not (verify_secret s.platform c req.client_secret)) ≡ false)
      × (w'.store ≡ w.store)
unfolding authenticated_client lift fail_if ◌>>=◌ pure
authenticated_client-ok s req g env w w' {c} h =
    let (cid, w1, e1, h1) = >>=-eq-ok (lift (parse_client_id req.client_id)) _ env w h in
    let (d, w2, e2, h2) = >>=-eq-ok (find_client s.platform cid) _ env w1 h1 in
    let same = find_client_reads cid env w1 w2 s.platform e2 in
    (ground arith, ground arith, ground arith)

-- Who the client of a request is: the one that the table holds under the request's client_id; the
-- grant type is among its own, and it is a public client or the request carries its secret.
pub record IsAuthenticated (s : AuthorizationService) (req : TokenRequest) (grant_type : String)
    (db : Db) (c : Client) : Type 0 where
  pub row : ClientRow
  pub at_client : select (λ r. r.id == req.client_id) db.clients ≡ some row
  pub client_restored : row_to_client s.platform row ≡ ok c
  pub may_use : contains c.grant_types grant_type ≡ true
  pub presented :
      (c.secret_hash ≡ none)
      ⊎ ((hash : String) × (c.secret_hash ≡ some hash)
          × (req.client_secret ≢ "")
          × (s.platform.bcrypt_matches hash req.client_secret ≡ true))

verify_hash-true :
    (p : Platform) (stored : Option String) (candidate : String)
    → verify_hash p stored candidate ≡ true
    → (stored ≡ none)
      ⊎ ((hash : String) × (stored ≡ some hash)
          × (candidate ≢ "")
          × (p.bcrypt_matches hash candidate ≡ true))
unfolding verify_hash
verify_hash-true p none candidate h = inl refl
verify_hash-true p (some hash) candidate h =
    inr (hash, refl, ground (arith, eq_iff candidate ""), ground arith)

-- The secret was checked, or there is none to check.
presented_secret :
    (p : Platform) (c : Client) (candidate : String)
    → (is_confidential c && not (verify_secret p c candidate)) ≡ false
    → (c.secret_hash ≡ none)
      ⊎ ((hash : String) × (c.secret_hash ≡ some hash)
          × (candidate ≢ "")
          × (p.bcrypt_matches hash candidate ≡ true))
unfolding is_confidential verify_secret
presented_secret p c candidate h = elim (Option-cases c.secret_hash) [
  | inl public ↦ inl public
  | inr (hash, stored) ↦ verify_hash-true p c.secret_hash candidate (ground arith)
]

pub authenticated_client-IsAuthenticated :
    (s : AuthorizationService) (req : TokenRequest) (g : String) (env : Env) (w w' : World Db)
    {c : Client}
    → authenticated_client s req g env w ≡ (ok c, w')
    → IsAuthenticated s req g w.store c
unfolding authenticated_client lift fail_if ◌>>=◌ pure parse_client_id supports_grant_type
authenticated_client-IsAuthenticated s req g env w w' {c} h =
    let (cid, w1, e1, h1) = >>=-eq-ok (lift (parse_client_id req.client_id)) _ env w h in
    let (d, w2, e2, h2) = >>=-eq-ok (find_client s.platform cid) _ env w1 h1 in
    let (row, at, restored) = find_client-IsStored s.platform cid env w1 w2 e2 in
    let named : cid ≡ req.client_id = ground arith in
    let same : w1 ≡ w = ground arith in
    let found : d ≡ c = ground arith in
    let stored : IsStored s.platform req.client_id w.store c =
      subst (λ id. IsStored s.platform id w.store c) named
        (subst (λ x. IsStored s.platform cid w.store x) found
          (subst (λ (x : World Db). IsStored s.platform cid x.store d) same (row, at, restored))) in
    record {
      row = stored.0;
      at_client = stored.1;
      client_restored = stored.2;
      may_use = ground arith;
      presented = presented_secret s.platform c req.client_secret (ground arith);
    }
