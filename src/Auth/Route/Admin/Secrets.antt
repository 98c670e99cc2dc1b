-- ===== src/Auth/Route/Admin/Secrets.antt =====
-- An update of a client without a new secret keeps the secrets of all clients.
use mathlib.Core.Option
use mathlib.Core.Path.{subst}
use cc_orchestrator.Prelude.{
  String, ◌≡◌, refl, sym, ap, ◌∙◌, true, false, Option, none, some, List, [], ◌∷◌, Result, ok, err,
  and_then-eq-ok, ◌==◌, eq_iff, arith, Bool-cases, inl, inr,
}
use cc_orchestrator.Action.{Time, Env, World, Action, statement, map_error, on_part}
use cc_orchestrator.Action.Keeps.{Keeps, lift-Keeps, query-Keeps}
use cc_orchestrator.Http.{Read, Request, Response, fresh, serve}
use cc_orchestrator.Http.Answers.{
  Runs, Either, Any, pure-Runs, bind-Runs, lift-Runs, raise-Runs, map_error-Runs, Keeps-Runs,
  on_part-Runs, if_Runs,
}
use cc_orchestrator.Auth.Errors.{Err}
use cc_orchestrator.Auth.Platform.{Platform}
use cc_orchestrator.Auth.Client
use cc_orchestrator.Auth.Client.{Client, parse_client_id, is_confidential}
use cc_orchestrator.Auth.Db.{Db, ClientRow}
use cc_orchestrator.Auth.Db.Table.{select, update, has_key}
use cc_orchestrator.Auth.Db.Table.View.{view, view-none, key-view}
use cc_orchestrator.Auth.Directory.{
  find_client, found_client, get_client_by_id, row_to_client, new_redirect_uris,
}
use cc_orchestrator.Auth.Service.Admin.{
  save_client, client_row, upsert_client, client_key, get_client,
}
use cc_orchestrator.Auth.Service.Login.{Server, put_db}
use cc_orchestrator.Auth.Route.{Body, Routes, read_or_refuse, decode_json_body, max_form_body_size}
use cc_orchestrator.Auth.Route.Admin.{
  Decoders, UpdateClientRequest, parse_redirect_uris, updated_client, handle_update_client,
}

abbrev overwrite : ClientRow → List ClientRow → List ClientRow
overwrite row rows = update (λ r. r.id == row.id) (λ r. row) rows

view-overwrite_other :
    (row : ClientRow) (rows : List ClientRow) (j : String)
    → (row.id == j) ≡ false
    → view client_key (overwrite row rows) j ≡ view client_key rows j
unfolding view select update
view-overwrite_other row [] j other = refl
view-overwrite_other row (x ∷ xs) j other =
    ground (
      arith,
      view-overwrite_other row xs j other,
      eq_iff x.id row.id,
      eq_iff x.id j,
      eq_iff row.id j,
    )

view-overwrite_same :
    (row : ClientRow) (rows : List ClientRow) {old : ClientRow}
    → view client_key rows row.id ≡ some old
    → view client_key (overwrite row rows) row.id ≡ some row
unfolding view select update
view-overwrite_same row [] h = cc
view-overwrite_same row (x ∷ xs) {old} h = elim (Bool-cases (x.id == row.id)) [
  | inl here ↦ rw here (rw ((eq_iff row.id row.id).1 refl) refl)
  | inr other ↦ rw (other, other) (view-overwrite_same row xs {old = old} (rw other at h))
]

parse_client_id-same : (id : String) {cid : String} → parse_client_id id ≡ ok cid → cid ≡ id
unfolding parse_client_id
parse_client_id-same id {cid} h = ground arith

not_confidential : (c : Client) → is_confidential c ≡ false → c.secret_hash ≡ none
unfolding is_confidential
not_confidential c h = go c.secret_hash refl
  where
    go : (o : Option String) → c.secret_hash ≡ o → c.secret_hash ≡ none
    go none e = e
    go (some hash) e = let wrong : true ≡ false = rw (is_confidential, e) at h in cc

ok-injective : {E A : Type 0} {a b : A} → ◌≡◌ {A = Result E A} (ok a) (ok b) → a ≡ b
ok-injective h = cc

-- The hash of the secret of the client with this identifier.
abbrev pub secret_of : List ClientRow → String → Option (Option String)
secret_of rows id = Option.map (λ r. r.client_secret_hash) (view client_key rows id)

module _ (rows : List ClientRow) where
  -- Every client has the secret that it has in these rows, and there are no other clients.
  abbrev pub SameSecrets : List ClientRow → Type 0
  SameSecrets now = (id : String) → secret_of now id ≡ secret_of rows id

  overwrite-SameSecrets :
      (now : List ClientRow) (row : ClientRow)
      → SameSecrets now
      → secret_of rows row.id ≡ some row.client_secret_hash
      → SameSecrets (overwrite row now)
  overwrite-SameSecrets now row same known id = elim (Bool-cases (row.id == id)) [
    | inr other ↦ rw (view-overwrite_other row now id other) (same id)
    | inl here ↦
        subst (λ x. secret_of (overwrite row now) x ≡ secret_of rows x) ((eq_iff row.id id).0 here)
          (at_row (view client_key now row.id) refl)
  ]
    where
      at_row :
          (o : Option ClientRow)
          → view client_key now row.id ≡ o
          → secret_of (overwrite row now) row.id ≡ secret_of rows row.id
      at_row (some old) e = rw (view-overwrite_same row now e) (sym known)
      at_row none e =
          let absent : none ≡ some row.client_secret_hash = rw e at (same row.id ∙ known) in cc

  abbrev OnDb : Db → Type 0
  OnDb db = SameSecrets db.clients

  abbrev Unchanged : Server → Type 0
  Unchanged sv = OnDb sv.db

  -- The client has this identifier, and its secret is the one in the rows.
  abbrev IsKnown : String → Client → Type 0
  IsKnown id c = (c.id ≡ id) × (secret_of rows id ≡ some c.secret_hash)

  upsert-SameSecrets :
      (c : Client) (now : Time) (db : Db)
      → secret_of rows c.id ≡ some c.secret_hash
      → OnDb db
      → OnDb (upsert_client (client_row c) now db).1
  unfolding upsert_client client_row
  upsert-SameSecrets c now db known same = elim (Bool-cases (has_key client_key c.id db.clients)) [
    | inl there ↦ rw there (overwrite-SameSecrets db.clients (client_row c) same known)
    | inr gone ↦
        let absent : none ≡ some c.secret_hash =
          rw (view-none client_key c.id db.clients gone) at (same c.id ∙ known) in
        cc
  ]

  save_client-Keeps :
      (c : Client) → secret_of rows c.id ≡ some c.secret_hash → Keeps OnDb (save_client c)
  unfolding save_client
  save_client-Keeps c known = query-Keeps _ _ λ now db same. upsert-SameSecrets c now db known same

  row_to_client-IsKnown :
      (p : Platform) (id : String) (row : ClientRow) (r : Result Err Client)
      → row.id ≡ id
      → secret_of rows id ≡ some row.client_secret_hash
      → row_to_client p row ≡ r
      → Either Any (IsKnown id) r
  unfolding row_to_client Client.reconstruct Client.new
  row_to_client-IsKnown p id row (err e) same known h = tt
  row_to_client-IsKnown p id row (ok c) same known h =
      let (cid, parsed, h1) = and_then-eq-ok (parse_client_id row.id) _ h in
      let (uris, read, h2) = and_then-eq-ok (new_redirect_uris p row.redirect_uris) _ h1 in
      let equal : Client.reconstruct cid uris row.allowed_scopes row.response_types row.grant_types
            row.client_secret_hash
          ≡ c =
        ok-injective h2 in
      (
        ap (λ (x : Client). x.id) (sym equal) ∙ (parse_client_id-same row.id parsed ∙ same),
        known ∙ ap (λ (x : Client). some x.secret_hash) equal,
      )

  abbrev IsSelected : String → Option ClientRow → Type 0
  IsSelected id none = Unit {0}
  IsSelected id (some row) = (row.id ≡ id) × (secret_of rows id ≡ some row.client_secret_hash)

  select-Runs :
      (failure : Err) (id : String)
      → Runs OnDb Any (IsSelected id) (statement failure (get_client_by_id id))
  unfolding statement get_client_by_id select view
  select-Runs failure id = record {
    runs = λ env w same. elim (Bool-cases (env.outage w.step)) [
      | inl down ↦ rw down (same, tt)
      | inr up ↦ rw up (same, found w.store.clients same (view client_key w.store.clients id) refl)
    ];
  }
    where
      found :
          (now : List ClientRow)
          → SameSecrets now
          → (o : Option ClientRow) → view client_key now id ≡ o
          → IsSelected id o
      found now same none e = tt
      found now same (some row) e = (
        key-view client_key id now e,
        sym (same id) ∙ ap (Option.map (λ (r : ClientRow). r.client_secret_hash)) e,
      )

  found_client-Runs :
      (p : Platform) (id : String) (row : Option ClientRow)
      → IsSelected id row
      → Runs OnDb Any (IsKnown id) (found_client p row)
  unfolding found_client
  found_client-Runs p id none e = raise-Runs _ tt
  found_client-Runs p id (some row) (same, known) =
      lift-Runs _ (row_to_client-IsKnown p id row _ same known refl)

  get_client-Runs : (p : Platform) (id : String) → Runs OnDb Any (IsKnown id) (get_client p id)
  unfolding get_client find_client
  get_client-Runs p id = bind-Runs (select-Runs _ id) (found_client-Runs p id)

  updated_client-Runs :
      (h : Routes) (d : Decoders) (r : Request) (cid : String) (uris : List String)
      (req : UpdateClientRequest) (existing : Client)
      → req.client_secret ≡ ""
      → secret_of rows cid ≡ some existing.secret_hash
      → Runs Unchanged Any (IsKnown cid) (updated_client h d r cid uris req existing)
  unfolding updated_client is_confidential Client.reconstruct Client.new
  updated_client-Runs h d r cid uris req existing no_secret known = rw no_secret (
      if_Runs (is_confidential existing) (λ e. pure-Runs _ (refl, known))
        (λ e.
          pure-Runs _
            (refl, known ∙ ap (λ (x : Option String). some x) (not_confidential existing e))))

  uris-Runs :
      (p : Platform) (raws : List String) → Runs Unchanged Any Any (parse_redirect_uris p raws)
  unfolding parse_redirect_uris
  uris-Runs p [] = pure-Runs _ tt
  uris-Runs p (raw ∷ rest) =
      bind-Runs (Keeps-Runs (lift-Keeps _))
        λ uri any. bind-Runs (uris-Runs p rest) λ uris any'. pure-Runs _ tt

  db-Runs :
      {A : Type 0} {Ψ : A → Type 0} {m : Action Err Db A} (f : Err → Response Body)
      → Runs OnDb Any Ψ m
      → Runs Unchanged Any Ψ (map_error f (on_part (λ (sv : Server). sv.db) put_db m))
  db-Runs f k = map_error-Runs f (on_part-Runs _ put_db OnDb (λ t s. refl) k) (λ e any. tt)

  -- The request's body, if it is decoded at all, gives no new secret.
  abbrev NoSecret : UpdateClientRequest → Type 0
  NoSecret req = req.client_secret ≡ ""

  handle_update_client-Runs :
      (h : Routes) (d : Decoders) (r : Request)
      → ((req : UpdateClientRequest)
          → d.update_client max_form_body_size r.body ≡ Read.done req
          → req.client_secret ≡ "")
      → Runs Unchanged Any Any (handle_update_client h d r)
  unfolding handle_update_client decode_json_body
  handle_update_client-Runs h d r no_secret =
      bind-Runs (map_error-Runs _ (Keeps-Runs (lift-Keeps _)) λ e any. tt) λ cid any.
        bind-Runs (lift-Runs _ (decoded (d.update_client max_form_body_size r.body) refl))
          λ req empty_secret.
            bind-Runs (db-Runs _ (get_client-Runs _ cid)) λ existing (named, known).
              bind-Runs (uris-Runs _ req.redirect_uris) λ uris any'.
                bind-Runs (updated_client-Runs h d r cid uris req existing empty_secret known)
                  λ updated (named', known').
                    bind-Runs
                      (db-Runs _ (Keeps-Runs (save_client-Keeps updated (rw named' known'))))
                      λ x any''. pure-Runs _ tt
    where
      decoded :
          (o : Read UpdateClientRequest)
          → d.update_client max_form_body_size r.body ≡ o
          → Either Any NoSecret (read_or_refuse fresh "request body must be valid JSON" o)
      decoded (Read.done req) e = no_secret req e
      decoded Read.too_large e = tt
      decoded Read.malformed e = tt

-- An update of a client by the administration whose body, where it can be decoded, gives no new secret leaves each
-- client with the secret it has, public or confidential, adds no client and removes none, whatever the answer is.
pub handle_update_client-SameSecrets :
    (h : Routes) (d : Decoders) (r : Request) (env : Env) (w : World Server)
    → ((req : UpdateClientRequest)
        → d.update_client max_form_body_size r.body ≡ Read.done req
        → req.client_secret ≡ "")
    → SameSecrets w.store.db.clients (serve (handle_update_client h d r) env w).1.store.db.clients
unfolding serve
handle_update_client-SameSecrets h d r env w no_secret =
    ((handle_update_client-Runs w.store.db.clients h d r no_secret).runs env w (λ id. refl)).0
