-- ===== src/Http.antt =====
-- What the handlers of both servers see of net/http and net/url. Parsing and printing are parameters:
-- a request comes with its parts, and the body is decoded by functions that the handlers take.
pub mod Laws
pub mod Answers
pub mod Reverts
use cc_orchestrator.Prelude.{
  ℕ, String, Bool, Option, none, some, List, [], ◌∷◌, ◌++◌, not, ◌==◌, if◌then◌else◌, Result, ok,
  err,
}
use cc_orchestrator.Prelude.Int.{ℤ}
use cc_orchestrator.Action.{Env, World, Action, lift}

-- `url.Values` and `http.Header`, in the order of the text.
abbrev pub Values : Type 0
Values = List (String × String)

-- Values.Get: the first value, or "".
unfoldable pub get : String → Values → String
get k [] = ""
get k ((j, v) ∷ rest) = if j == k then v else get k rest

-- Values.Del
unfoldable pub del : String → Values → Values
del k [] = []
del k ((j, v) ∷ rest) = let others = del k rest in if j == k then others else (j, v) ∷ others

-- Values.Set
unfoldable pub set : String → String → Values → Values
unfolding del
set k v values = del k values ++ (k, v) ∷ []

-- What a read of a body of bounded size yields.
pub data Read (A : Type 0) : Type 0 where
  done : A → Read A
  too_large malformed : Read A

pub record Request : Type 0 where
  pub method : String
  pub path : String
  -- r.PathValue("id")
  pub path_id : String
  pub query : Values
  pub headers : Values
  pub cookies : Values
  pub body : String
  -- r.ParseForm(), of a body cut off behind so many bytes; the fields of the body
  pub form : Option ℕ → Read Values

-- http.Cookie; the path is "/" and SameSite is Lax everywhere.
pub record Cookie : Type 0 where
  pub name : String
  pub value : String
  pub max_age : ℤ
  pub http_only : Bool
  pub secure : Bool

-- What a handler has set on its http.ResponseWriter.
pub record Writer : Type 0 where
  pub headers : Values
  pub cookies : List Cookie

abbrev pub fresh : Writer
fresh = record { headers = []; cookies = [] }

unfoldable pub set_header : String → String → Writer → Writer
set_header k v w = record w { headers = set k v w.headers }

unfoldable pub set_cookie : Cookie → Writer → Writer
set_cookie c w = record w { cookies = w.cookies ++ c ∷ [] }

pub record Response (B : Type 0) : Type 0 where
  pub status : ℕ
  pub headers : Values
  pub cookies : List Cookie
  pub body : B

-- writeJSON of both servers, without the log
unfoldable pub write_json : {B : Type 0} → Writer → ℕ → B → Response B
unfolding set_header
write_json w status body = record {
  status = status;
  headers = set "Content-Type" "application/json" w.headers;
  cookies = w.cookies;
  body = body;
}

unfoldable pub write_header : {B : Type 0} → Writer → ℕ → B → Response B
write_header w status body = record {
  status = status;
  headers = w.headers;
  cookies = w.cookies;
  body = body;
}

-- An `http.HandlerFunc` on a state `S`: a response that ends the handler early is an error.
abbrev pub Handler : Type 0 → Type 0 → Type 0 → Type 0
Handler B S A = Action (Response B) S A

abbrev pub reply : {B : Type 0} → Result (Response B) (Response B) → Response B
reply (ok r) = r
reply (err r) = r

unfoldable pub serve :
    {B S : Type 0} → Handler B S (Response B) → Env → World S → Response B × World S
serve h env w = let (r, w') = h env w in (reply r, w')

-- `if b { respond; return }`
abbrev pub respond_if : {B S : Type 0} → Bool → Response B → Handler B S (Unit {0})
respond_if b r = lift (if b then err r else ok tt)

-- `u, err := url.Parse(s)`: `u.String()`, the parameters of the URL, and its text with others.
pub record Link : Type 0 where
  pub text : String
  pub params : Values
  pub with_params : Values → String

-- net/url, encoding/base64 and fmt
pub record Web : Type 0 where
  -- url.Parse; `none` is an error, here and below
  pub parse_link : String → Option Link
  -- url.ParseQuery
  pub parse_query : String → Option Values
  -- Values.Encode
  pub encode : Values → String
  -- base64.StdEncoding.DecodeString
  pub decode_base64 : String → Option String
  -- fmt.Sscanf(s, "%d", &n) for an int64
  pub scan_int : String → Option ℤ
  -- strings.ToLower
  pub to_lower : String → String
