-- ===== src/Auth/User.antt =====
-- app/auth/domain/user/{user,user_id,username,profile}.go
use Prim.Native.Char.{code}
use cc_orchestrator.Prelude.{
  String, Bool, true, false, ◌||◌, Option, none, some, Result, ok, err, ◌==◌, ◌=ℕ◌, if◌then◌else◌,
}
use cc_orchestrator.GoText.{trim_space}
use cc_orchestrator.Auth.Errors.{Err, user, UserError}
use cc_orchestrator.Auth.Platform.{Platform}

pub record Profile : Type 0 where
  pub name : String
  pub email : String

pub record User : Type 0 where
  pub id : String
  pub username : String
  pub password_hash : String
  pub profile : Profile

unfoldable pub parse_user_id : String → Result Err String
parse_user_id s = if s == "" then err (user UserError.invalid_user_id) else ok s

unfoldable pub verify_password : Platform → User → String → Bool
verify_password p u candidate =
    if candidate == "" then false else p.bcrypt_matches u.password_hash candidate

unfoldable pub new_username : String → Result Err String
unfolding trim_space
new_username s =
    let trimmed = trim_space s in
    if trimmed == "" then err (user UserError.invalid_username) else ok trimmed

-- The text behind the first "@", if there is one.
unfoldable pub after_at : String → Option String
after_at String.[] = none
after_at (String.◌∷◌ c s) = let rest = after_at s in if code c =ℕ b'@' then some s else rest

abbrev begins_with_at : String → Bool
begins_with_at String.[] = false
begins_with_at (String.◌∷◌ c s) = code c =ℕ b'@'

-- Some text, one "@", some text.
unfoldable pub looks_like_email : String → Bool
looks_like_email email = elim (after_at email) [
  | none ↦ false
  | some rest ↦
      if begins_with_at email || rest == ""
      then false
      else (elim (after_at rest) [ none ↦ true | some _ ↦ false ])
]

unfoldable pub new_profile : String → String → Result Err Profile
new_profile name email =
    if looks_like_email email
    then ok (record { name = trim_space name; email = email })
    else err (user UserError.invalid_email)

unfoldable pub reconstruct : String → String → String → Profile → User
reconstruct id username password_hash profile = record {
  id = id;
  username = username;
  password_hash = password_hash;
  profile = profile;
}
