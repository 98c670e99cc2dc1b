-- ===== src/Auth/Tests/Endpoint.antt =====
-- Requests to /authorize, and scopes.
use cc_orchestrator.Prelude.{◌≡◌, refl, ok, inr, arith, eq_iff, set_insert, to_set, to_set_from}
use cc_orchestrator.GoText.{fields, join, is_space, trim_space, trim_left, trim_right}
use cc_orchestrator.Action.{World, pure, raise, lift, statement, fail_if, map_error, ◌>>=◌}
use cc_orchestrator.Auth.Db.{Db}
use cc_orchestrator.Auth.Db.Table.{select}
use cc_orchestrator.Auth.Client
use cc_orchestrator.Auth.Client.{
  Client, parse_client_id, new_redirect_uri, check_url, validate_redirect_uri, find_redirect_uri,
  supports_response_type, allows_scope,
}
use cc_orchestrator.Auth.AuthCode.Scopes.{parse_scope, of_fields}
use cc_orchestrator.Auth.AuthCode.Challenge.{parse_code_challenge_method, new_code_challenge}
use cc_orchestrator.Auth.Directory.{
  find_client, found_client, get_client_by_id, row_to_client, new_redirect_uris,
}
use cc_orchestrator.Auth.Service.Dto.{AuthorizeRequest}
use cc_orchestrator.Auth.Service.Authorize.{check_request, validate_authorize, scopes_permitted}
use cc_orchestrator.Auth.Service.Authorize.Redirect.{located}
use cc_orchestrator.Auth.Service.Authorize.Laws.{
  IsAcceptable, validate_accepts, validate_accepts_only,
}
use cc_orchestrator.Auth.Tests.{service, calm, start, web_client}

abbrev request : AuthorizeRequest
request = record {
  response_type = "code";
  client_id = "web";
  redirect_uri = "https://app/cb";
  scope = "openid offline_access";
  state = "s";
  nonce = "";
  code_challenge = "Kw";
  code_challenge_method = "S256";
  login_hint = "";
  auth_time = 0;
}

abbrev looked_up : World Db
looked_up = record { step = 1; store = start.store }

found : find_client service.platform "web" calm start ≡ (ok web_client, looked_up)
unfolding ◌>>=◌ lift statement parse_client_id find_client found_client get_client_by_id
    row_to_client new_redirect_uris new_redirect_uri check_url Client.reconstruct Client.new select
    set_insert to_set to_set_from
found = refl

acceptable : IsAcceptable service request web_client
unfolding fields is_space
acceptable = record {
  identified = ground (arith, eq_iff "web" "");
  is_web_url =
      (record { scheme = "https"; host = "app" }, refl, ground (arith, eq_iff "app" ""), inr refl);
  registered = refl;
  code_flow = refl;
  code_allowed = refl;
  openid = refl;
  permitted = refl;
  challenge = ground (arith, eq_iff "Kw" "");
  method = refl;
}

validate_accepts_example :
    validate_authorize service request calm start ≡ (ok (located "https://app/cb"), looked_up)
validate_accepts_example =
    validate_accepts service request web_client calm start looked_up found acceptable

accepted :
    validate_authorize service request calm start ≡ (ok (located "https://app/cb"), looked_up)
unfolding validate_authorize check_request map_error ◌>>=◌ lift pure raise fail_if statement
    parse_client_id find_client found_client get_client_by_id row_to_client new_redirect_uris
    new_redirect_uri check_url Client.reconstruct Client.new select set_insert to_set to_set_from
    validate_redirect_uri find_redirect_uri supports_response_type parse_scope of_fields fields join
    is_space trim_space trim_left trim_right scopes_permitted allows_scope
    parse_code_challenge_method new_code_challenge
accepted = refl

validate_accepts_only_example :
    IsAcceptable service request web_client × (located "https://app/cb" ≡ located "https://app/cb")
validate_accepts_only_example =
    validate_accepts_only service request web_client calm start looked_up found
      (located "https://app/cb") looked_up accepted
