-- ===== src/Auth/Tests/Login.antt =====
-- Logging in, browser sessions and pending authorizations.
use cc_orchestrator.Prelude.{◌≡◌, refl, true, false, none, [], ◌∷◌, ok, err, is_ok, inr, arith}
use cc_orchestrator.GoText.{trim_space, trim_left, trim_right, is_space}
use cc_orchestrator.GoText.Encoding.{base64url_encode}
use cc_orchestrator.Action.{
  Env, World, pure, raise, lift, statement, fail_if, on_error, on_part, check_context, get_store,
  modify, time_now, rand_read, ◌>>=◌,
}
use cc_orchestrator.Auth.Errors.{invalid_credentials}
use cc_orchestrator.Auth.User
use cc_orchestrator.Auth.User.{
  User, new_username, verify_password, parse_user_id, new_profile, looks_like_email, after_at,
}
use cc_orchestrator.Auth.Db.{UserRow}
use cc_orchestrator.Auth.Db.Table.{select, has_key, Unique}
use cc_orchestrator.Auth.Db.Table.View.{view}
use cc_orchestrator.Auth.Directory.{
  find_user_by_username, found_user, get_user_by_username, row_to_user,
}
use cc_orchestrator.Auth.Sessions.{
  Session, PendingAuthorize, IdpSessionStore, session_id, create_session, random_id, put_session,
  consume_pending_authorize, live_pending, delete_pending_id, purge_at, purge_expired, find_session,
}
use cc_orchestrator.Auth.Sessions.SingleUse.{history, purge, find_pending, consumed_at_most_once}
use cc_orchestrator.Auth.Sessions.Purge.{find_session_after_purge}
use cc_orchestrator.Auth.Service.Login.{Server, known_user, login, user_from_session}
use cc_orchestrator.Auth.Service.Login.Outcomes.{Refused, user_from_session-login, login_refusal}
use cc_orchestrator.Auth.Tests.{toy_platform, calm, db, ann}

abbrev pub server : World Server
server = record {
  step = 0;
  store = record { db = db; idp = record { sessions = []; pending = [] } };
}

-- The session that a login of ann opens.
abbrev pub session : Session
session = record { id = "Ag"; user_id = "u1"; authenticated_at = 1000; expires_at = 86_400_001_000 }

abbrev after_login : World Server
after_login = (login toy_platform " ann " "pw" calm server).1

logged_in : login toy_platform " ann " "pw" calm server ≡ (ok session, after_login)
unfolding login known_user on_error on_part lift raise fail_if pure ◌>>=◌ statement
    find_user_by_username found_user get_user_by_username select row_to_user parse_user_id
    new_username new_profile looks_like_email after_at trim_space trim_left trim_right is_space
    User.reconstruct verify_password create_session random_id rand_read check_context time_now
    modify put_session base64url_encode
logged_in = refl

-- The session of ann leads back to a user with the password "pw".
user_from_session-login_example :
    (u : User) × (verify_password toy_platform u "pw" ≡ true)
    × ((user_from_session "Ag" calm after_login).0 ≡ ok u)
user_from_session-login_example =
    user_from_session-login toy_platform " ann " "pw" calm calm server after_login after_login
      session one_user logged_in (λ h. cc) refl refl (λ i. refl) (ground arith)
  where
    one_user : Unique (λ (r : UserRow). r.id) db.users
    one_user = (unfold has_key in refl, tt)

named : new_username " ann " ≡ ok "ann"
unfolding new_username trim_space trim_left trim_right is_space
named = refl

-- A wrong password for ann.
wrong_password : Refused toy_platform "ann" "qw" db
unfolding select row_to_user parse_user_id new_username new_profile looks_like_email after_at
    trim_space trim_left trim_right is_space User.reconstruct verify_password
wrong_password = inr (
  ann,
  record {
    id = "u1";
    username = "ann";
    password_hash = "pw";
    profile = record { name = "Ann"; email = "a@b.c" };
  },
  refl,
  refl,
  refl,
)

login_refusal_example :
    login toy_platform " ann " "qw" calm server
    ≡ (err invalid_credentials, record { step = 1; store = server.store })
login_refusal_example =
    login_refusal toy_platform " ann " "ann" "qw" calm server refl named wrong_password

-- A pending authorization with an identifier that no draw of `calm` gives.
abbrev waiting : PendingAuthorize
waiting = record { id = "zz"; raw_query = "client_id=web"; expires_at = 5000 }

abbrev store : World IdpSessionStore
store = record { step = 0; store = record { sessions = session ∷ []; pending = waiting ∷ [] } }

abbrev after_consume : World IdpSessionStore
after_consume = (consume_pending_authorize "zz" calm store).1

consumed : consume_pending_authorize "zz" calm store ≡ (ok waiting, after_consume)
unfolding consume_pending_authorize check_context get_store live_pending view select time_now pure
    modify delete_pending_id raise ◌>>=◌
consumed = refl

abbrev dry : Env
dry = record { clock = λ i. 1000; entropy = λ i n. none; outage = λ i. false }

consumed_at_most_once_example :
    is_ok
      (consume_pending_authorize "zz" calm
        (history ((purge, dry) ∷ (find_pending "zz", dry) ∷ []) after_consume)).0
    ≡ false
consumed_at_most_once_example =
    consumed_at_most_once "zz" calm calm store after_consume waiting
      ((purge, dry) ∷ (find_pending "zz", dry) ∷ []) consumed
      ((λ i bytes h. cc), ((λ i bytes h. cc), tt))

-- A session that is over, and its purge.
abbrev old_store : World IdpSessionStore
old_store = record {
  step = 0;
  store = record {
    sessions = record session { id = "old"; expires_at = 900 } ∷ session ∷ [];
    pending = [];
  };
}

abbrev after_purge : World IdpSessionStore
after_purge = (purge_expired calm old_store).1

purged : purge_expired calm old_store ≡ (ok 1, after_purge)
unfolding purge_expired check_context time_now get_store modify purge_at pure ◌>>=◌
purged = refl

find_session_after_purge_example :
    (find_session "old" calm after_purge).0 ≡ (find_session "old" calm old_store).0
find_session_after_purge_example =
    find_session_after_purge "old" calm calm calm old_store after_purge 1
      (record { unique_sessions = unique_old; unique_pending = tt }) purged (ground arith) refl refl
  where
    unique_old : Unique session_id old_store.store.sessions
    unique_old = (unfold has_key in refl, (unfold has_key in refl, tt))
