-- ===== src/Auth/Directory/Reads.antt =====
-- Lookups of clients and users change no table.
use cc_orchestrator.Prelude.{
  String, ◌≡◌, Option, none, some, Result, ok, arith, ◌==◌, inl, inr, Bool-cases, Option-cases,
}
use cc_orchestrator.Action.{Env, World, lift, raise, statement, ◌>>=◌}
use cc_orchestrator.Auth.Platform.{Platform}
use cc_orchestrator.Auth.Client.{Client}
use cc_orchestrator.Auth.User.{User}
use cc_orchestrator.Auth.Db.{Db, ClientRow, UserRow}
use cc_orchestrator.Action.Keeps.{Keeps, raise-Keeps, lift-Keeps, query-Keeps, bind-Keeps}
use cc_orchestrator.Auth.Errors.{Err}
use cc_orchestrator.Auth.Directory.{
  get_client_by_id, get_user_by_id, found_client, found_user, find_client, find_user, row_to_client,
}
use cc_orchestrator.Auth.Db.Table.{select}

module _ (id : String) (env : Env) (w w' : World Db) where
  pub find_client_reads :
      (p : Platform) {r : Result Err Client} → find_client p id env w ≡ (r, w') → w'.store ≡ w.store
  unfolding find_client found_client statement ◌>>=◌ get_client_by_id
  find_client_reads p h = ground arith

  pub find_user_reads : {r : Result Err User} → find_user id env w ≡ (r, w') → w'.store ≡ w.store
  unfolding find_user found_user statement ◌>>=◌ get_user_by_id
  find_user_reads h = ground arith

-- The client stands in the table under the id.
abbrev pub IsStored : Platform → String → Db → Client → Type 0
IsStored p id db c =
    (row : ClientRow) × (select (λ r. r.id == id) db.clients ≡ some row)
    × (row_to_client p row ≡ ok c)

pub find_client-IsStored :
    (p : Platform) (id : String) (env : Env) (w w' : World Db) {c : Client}
    → find_client p id env w ≡ (ok c, w')
    → IsStored p id w.store c
unfolding find_client found_client statement ◌>>=◌ get_client_by_id lift raise
find_client-IsStored p id env w w' {c} h = elim (Bool-cases (env.outage w.step)) [
  | inl down ↦ absurd (ground arith)
  | inr up ↦ elim (Option-cases (select (λ (r : ClientRow). r.id == id) w.store.clients)) [
    | inl missing ↦ absurd (ground arith)
    | inr (row, at) ↦ (row, at, ground arith)
  ]
]

module _ {P : Db → Type 0} where
  found_client-Keeps : (p : Platform) (row : Option ClientRow) → Keeps P (found_client p row)
  unfolding found_client
  found_client-Keeps p none = raise-Keeps _
  found_client-Keeps p (some row) = lift-Keeps _

  found_user-Keeps : (row : Option UserRow) → Keeps P (found_user row)
  unfolding found_user
  found_user-Keeps none = raise-Keeps _
  found_user-Keeps (some row) = lift-Keeps _

  pub find_client-Keeps : (p : Platform) (id : String) → Keeps P (find_client p id)
  unfolding find_client get_client_by_id
  find_client-Keeps p id = bind-Keeps (query-Keeps _ _ λ now db h. h) (found_client-Keeps p)

  pub find_user-Keeps : (id : String) → Keeps P (find_user id)
  unfolding find_user get_user_by_id
  find_user-Keeps id = bind-Keeps (query-Keeps _ _ λ now db h. h) found_user-Keeps
