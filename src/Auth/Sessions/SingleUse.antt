-- ===== src/Auth/Sessions/SingleUse.antt =====
-- A pending authorization is consumed at most once.
use cc_orchestrator.Prelude.{
  ℕ, suc, ◌+◌, String, ◌≡◌, ◌≢◌, ◌∙◌, false, not, Option, none, some, ok, is_ok, List, [], ◌∷◌, All,
  arith, eq_iff, inl, inr, Option-cases,
}
use cc_orchestrator.Action.{
  Time, Env, World, raise, get_store, check_context, time_now, rand_read, modify, ◌>>=◌, pure,
}
use cc_orchestrator.GoText.Encoding.{base64url_encode}
use cc_orchestrator.Auth.Db.Table.{has_key-keep, delete}
use cc_orchestrator.Auth.Db.Table.View.{view-none, view-put, view-remove, has_key-none}
use cc_orchestrator.Auth.Sessions.{
  PendingAuthorize, IdpSessionStore, pending_id, pending_expired, put_pending, delete_pending_id,
  put_session, delete_session_id, live_pending, consume_pending_authorize, purge_at,
  find_pending_authorize, create_session, save_pending_authorize, find_session, delete_session,
  purge_expired, random_id, live_session,
}
use cc_orchestrator.Auth.Sessions.Laws.{pending_at}

-- The methods of the store, with their arguments.
pub data Call : Type 0 where
  create save : String → Time → Call
  find remove find_pending consume : String → Call
  purge : Call

-- A call in surroundings of its own; its answer is left out.
unfoldable pub perform : Call → Env → World IdpSessionStore → World IdpSessionStore
perform (create user_id ttl) env w = (create_session user_id ttl env w).1
perform (save raw_query ttl) env w = (save_pending_authorize raw_query ttl env w).1
perform (find id) env w = (find_session id env w).1
perform (remove id) env w = (delete_session id env w).1
perform (find_pending id) env w = (find_pending_authorize id env w).1
perform (consume id) env w = (consume_pending_authorize id env w).1
perform purge env w = (purge_expired env w).1

unfoldable pub history : List (Call × Env) → World IdpSessionStore → World IdpSessionStore
history [] w = w
history ((c, env) ∷ cs) w = history cs (perform c env w)

-- No reading of random bytes gives this identifier.
abbrev pub NeverDraws : String → Env → Type 0
NeverDraws id env =
    (i : ℕ) (bytes : List ℕ) → env.entropy i 32 ≡ some bytes → base64url_encode bytes ≢ id

module _ (id : String) where
  put-none :
      (p : PendingAuthorize) (st : IdpSessionStore)
      → p.id ≢ id
      → pending_at st id ≡ none
      → pending_at (put_pending p st) id ≡ none
  unfolding put_pending
  put-none p st o h = view-put pending_id p id st.pending ∙ ground (arith, eq_iff p.id id)

  remove-none :
      (j : String) (st : IdpSessionStore)
      → pending_at st id ≡ none
      → pending_at (delete_pending_id j st) id ≡ none
  unfolding delete_pending_id
  remove-none j st h = view-remove pending_id j id st.pending ∙ ground arith

  purge-none :
      (now : Time) (st : IdpSessionStore)
      → pending_at st id ≡ none
      → pending_at (purge_at now st) id ≡ none
  unfolding purge_at
  purge-none now st h = view-none pending_id id (delete (pending_expired now) st.pending) (
      has_key-keep pending_id (λ p. not (pending_expired now p)) id st.pending
        (has_key-none pending_id id st.pending h))

  save-none :
      (q : String) (ttl : Time) (env : Env) (w : World IdpSessionStore)
      → NeverDraws id env
      → pending_at w.store id ≡ none
      → pending_at (save_pending_authorize q ttl env w).1.store id ≡ none
  unfolding save_pending_authorize random_id check_context rand_read time_now modify pure ◌>>=◌
  save-none q ttl env w o h = elim (Option-cases (env.entropy (suc w.step) 32)) [
    | inl failed ↦ ground arith
    | inr (bytes, e) ↦
        (let p : PendingAuthorize = record {
          id = base64url_encode bytes;
          raw_query = q;
          expires_at = env.clock (suc (suc w.step)) + ttl;
        } in
          ground (arith, put-none p w.store (o (suc w.step) bytes e) h))
  ]

  live-none :
      (j : String) (o : Option PendingAuthorize) (env : Env) (w : World IdpSessionStore)
      → pending_at w.store id ≡ none
      → pending_at (live_pending j o env w).1.store id ≡ none
  unfolding live_pending modify raise time_now pure ◌>>=◌
  live-none j none env w h = remove-none j w.store h
  live-none j (some p) env w h = ground (arith, remove-none j w.store h)

  consume-none :
      (j : String) (o : Option PendingAuthorize) (env : Env) (w : World IdpSessionStore)
      → pending_at w.store id ≡ none
      → pending_at
          ((live_pending j o >>= λ p. (modify (delete_pending_id j) >>= λ _. pure p)) env w).1.store
          id
        ≡ none
  unfolding live_pending modify raise time_now pure ◌>>=◌
  consume-none j none env w h = remove-none j w.store h
  consume-none j (some p) env w h = ground (arith, remove-none j w.store h)

  perform-none :
      (c : Call) (env : Env) (w : World IdpSessionStore)
      → NeverDraws id env
      → pending_at w.store id ≡ none
      → pending_at (perform c env w).store id ≡ none
  unfolding perform create_session find_session live_session delete_session find_pending_authorize
      consume_pending_authorize purge_expired random_id check_context rand_read time_now modify
      get_store put_session delete_session_id pure raise ◌>>=◌
  perform-none (create u ttl) env w o h = ground (arith, Option-cases (env.entropy (suc w.step) 32))
  perform-none (save q ttl) env w o h = save-none q ttl env w o h
  perform-none (find j) env w o h = ground arith
  perform-none (remove j) env w o h = ground arith
  perform-none (find_pending j) env w o h =
      ground (arith, live-none j (pending_at w.store j) env (record w { step = suc w.step }) h)
  perform-none (consume j) env w o h =
      ground (arith, consume-none j (pending_at w.store j) env (record w { step = suc w.step }) h)
  perform-none purge env w o h = ground (arith, purge-none (env.clock (suc w.step)) w.store h)

  history-none :
      (cs : List (Call × Env)) (w : World IdpSessionStore)
      → All (λ (e : Call × Env). NeverDraws id e.1) cs
      → pending_at w.store id ≡ none
      → pending_at (history cs w).store id ≡ none
  unfolding history
  history-none [] w o h = h
  history-none ((c, env) ∷ cs) w (o, os) h =
      history-none cs (perform c env w) os (perform-none c env w o h)

  consumed-none :
      (env : Env) (w w' : World IdpSessionStore) (p : PendingAuthorize)
      → consume_pending_authorize id env w ≡ (ok p, w')
      → pending_at w'.store id ≡ none
  unfolding consume_pending_authorize check_context get_store modify delete_pending_id live_pending
      ◌>>=◌ raise time_now pure
  consumed-none env w w' p h =
      let law = view-remove pending_id id id w.store.pending in ground (arith, eq_iff id id)

  absent_fails :
      (env : Env) (w : World IdpSessionStore)
      → pending_at w.store id ≡ none
      → is_ok (consume_pending_authorize id env w).0 ≡ false
  unfolding consume_pending_authorize check_context get_store modify live_pending ◌>>=◌ raise
  absent_fails env w h = ground arith

-- A pending authorization that was consumed can not be consumed again, whatever calls the store
-- answers in between, as long as none of them draws the same identifier.
pub consumed_at_most_once :
    (id : String) (env env' : Env) (w w' : World IdpSessionStore) (p : PendingAuthorize)
    (cs : List (Call × Env))
    → consume_pending_authorize id env w ≡ (ok p, w')
    → All (λ (e : Call × Env). NeverDraws id e.1) cs
    → is_ok (consume_pending_authorize id env' (history cs w')).0 ≡ false
consumed_at_most_once id env env' w w' p cs h others =
    absent_fails id env' (history cs w')
      (history-none id cs w' others (consumed-none id env w w' p h))
