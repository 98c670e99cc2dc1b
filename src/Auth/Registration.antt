-- ===== src/Auth/Registration.antt =====
-- What makes a client or a user with a secret, `NewConfidential` of app/auth/domain/client/client.go and
-- `New` of app/auth/domain/user/user.go, and the lists of all, `ListAll` of
-- app/auth/infra/postgres/{client_repository,user_repository}.go.
use cc_orchestrator.Prelude.{
  ℕ, suc, String, Bool, Option, none, some, List, [], ◌∷◌, Result, ok, err, and_then, if◌then◌else◌,
}
use cc_orchestrator.Action.{Time, Action, pure, lift, statement, ◌>>=◌}
use cc_orchestrator.Auth.Errors.{Err, database}
use cc_orchestrator.Auth.Platform.{Platform}
use cc_orchestrator.Auth.Client
use cc_orchestrator.Auth.Client.{Client}
use cc_orchestrator.Auth.User.{User, Profile}
use cc_orchestrator.Auth.Db.{ClientRow, UserRow, Db}
use cc_orchestrator.Auth.Directory.{row_to_client, row_to_user}

-- bcrypt.GenerateFromPassword with bcrypt.DefaultCost, salted by the n-th reading; `none` is its error.
abbrev pub Hasher : Type 0
Hasher = ℕ → String → Option String

unfoldable pub generate_hash : {S : Type 0} → Hasher → String → Action (Unit {0}) S String
generate_hash hasher secret env w = (
  elim (hasher w.step secret) [ none ↦ err tt | some hash ↦ ok hash ],
  record w { step = suc w.step },
)

unfoldable pub new_confidential :
    {S : Type 0}
    → Hasher
    → String
    → List String
    → List String
    → List String
    → List String
    → String
    → Action (Unit {0}) S Client
new_confidential hasher id redirect_uris allowed_scopes response_types grant_types
      plaintext_secret =
    do
      hash ← generate_hash hasher plaintext_secret
      pure (
          Client.reconstruct id redirect_uris allowed_scopes response_types grant_types (some hash))

unfoldable pub new_user :
    {S : Type 0} → Hasher → String → String → String → Profile → Action (Unit {0}) S User
new_user hasher id username plaintext_password profile = do
  hash ← generate_hash hasher plaintext_password
  pure (record { id = id; username = username; password_hash = hash; profile = profile })

unfoldable pub rows_to_clients : Platform → List ClientRow → Result Err (List Client)
rows_to_clients p [] = ok []
rows_to_clients p (r ∷ rs) =
    and_then (row_to_client p r) λ c. and_then (rows_to_clients p rs) λ cs. ok (c ∷ cs)

unfoldable pub rows_to_users : List UserRow → Result Err (List User)
rows_to_users [] = ok []
rows_to_users (r ∷ rs) = and_then (row_to_user r) λ u. and_then (rows_to_users rs) λ us. ok (u ∷ us)

module _ {R : Type 0} (before : String → String → Bool) (id_of : R → String) where
  -- ORDER BY id
  unfoldable pub insert_by_id : R → List R → List R
  insert_by_id row [] = row ∷ []
  insert_by_id row (r ∷ rs) =
      let rest = insert_by_id row rs in
      if before (id_of row) (id_of r) then row ∷ r ∷ rs else r ∷ rest

  unfoldable pub order_by_id : List R → List R
  unfolding insert_by_id
  order_by_id [] = []
  order_by_id (r ∷ rs) = insert_by_id r (order_by_id rs)

module _ (before : String → String → Bool) where
  unfoldable pub list_clients_rows : Time → Db → Result Err (List ClientRow) × Db
  list_clients_rows now db = (ok (order_by_id before (λ (r : ClientRow). r.id) db.clients), db)

  unfoldable pub list_users_rows : Time → Db → Result Err (List UserRow) × Db
  list_users_rows now db = (ok (order_by_id before (λ (r : UserRow). r.id) db.users), db)

  unfoldable pub list_all_clients : Platform → Action Err Db (List Client)
  list_all_clients p = do rows ← statement database list_clients_rows; lift (rows_to_clients p rows)

  unfoldable pub list_all_users : Action Err Db (List User)
  list_all_users = do rows ← statement database list_users_rows; lift (rows_to_users rows)
