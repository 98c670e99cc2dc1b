-- ===== src/Auth/Sessions/Purge.antt =====
-- The background purge can not be observed: it takes away only what a lookup would refuse.
use cc_orchestrator.Prelude.{ℕ, suc, ok, ◌≤◌, String, ◌≡◌, arith, Option-cases, inl, inr}
use cc_orchestrator.Action.{
  Env, World, raise, get_store, check_context, time_now, modify, pure, ◌>>=◌,
}
use cc_orchestrator.Auth.Db.Table.{Unique}
use cc_orchestrator.Auth.Db.Table.View.{view-delete}
use cc_orchestrator.Auth.Sessions.{
  IdpSessionStore, session_id, pending_id, session_expired, pending_expired, live_session,
  find_session, live_pending, consume_pending_authorize, purge_at, purge_expired,
}
use cc_orchestrator.Auth.Sessions.Laws.{session_at, pending_at}

-- The identifiers of a Go map are distinct.
pub record IsStore (st : IdpSessionStore) : Type 0 where
  pub unique_sessions : Unique session_id st.sessions
  pub unique_pending : Unique pending_id st.pending

-- A purge that returns took away what is expired at its reading of the clock.
purge_expired-ok :
    (env : Env) (w v : World IdpSessionStore) (n : ℕ)
    → purge_expired env w ≡ (ok n, v)
    → v.store ≡ purge_at (env.clock (suc w.step)) w.store
unfolding purge_expired check_context time_now get_store modify pure ◌>>=◌
purge_expired-ok env w v n h = ground arith

-- A lookup in `env` before a purge in `env0`, or the same lookup in `env'` after it: the clock reads the
-- same, and not before the purge did.
module _ (id : String) (env0 env env' : Env) (w v : World IdpSessionStore) (n : ℕ)
    (u : IsStore w.store) (purged : purge_expired env0 w ≡ (ok n, v))
    (later : env0.clock (suc w.step) ≤ env.clock (suc w.step))
    (same_time : env'.clock (suc v.step) ≡ env.clock (suc w.step))
    (same_context : env'.outage v.step ≡ env.outage w.step) where
  -- In a store with distinct identifiers, a lookup of a session after a purge that returned answers as
  -- it would without the purge, if its reading of the clock is the same, and not before the purge's,
  -- and its request is cancelled in both cases or in none.
  pub find_session_after_purge : (find_session id env' v).0 ≡ (find_session id env w).0
  unfolding find_session live_session check_context get_store time_now modify purge_at raise pure
      ◌>>=◌
  find_session_after_purge =
      let now = env0.clock (suc w.step) in
      let left = purge_expired-ok env0 w v n purged in
      let law =
        view-delete session_id (session_expired now) id w.store.sessions u.unique_sessions in
      elim (Option-cases (session_at w.store id)) [
        | inl gone ↦ rw left (ground arith)
        | inr (s, e) ↦ rw left (ground arith)
      ]

  -- So does the consumption of a pending authorization.
  consume_after_purge :
      (consume_pending_authorize id env' v).0 ≡ (consume_pending_authorize id env w).0
  unfolding consume_pending_authorize live_pending check_context get_store time_now modify purge_at
      raise pure ◌>>=◌
  consume_after_purge =
      let now = env0.clock (suc w.step) in
      let left = purge_expired-ok env0 w v n purged in
      let law = view-delete pending_id (pending_expired now) id w.store.pending u.unique_pending in
      elim (Option-cases (pending_at w.store id)) [
        | inl gone ↦ rw left (ground arith)
        | inr (p, e) ↦ rw left (ground arith)
      ]
