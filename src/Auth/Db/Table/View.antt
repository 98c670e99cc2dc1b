-- ===== src/Auth/Db/Table/View.antt =====
-- A table with a primary key as a partial map from keys to rows, and the statements as operations on
-- that map.
use mathlib.Core.Option
use cc_orchestrator.Prelude.{
  String, ◌≡◌, refl, ◌∙◌, Bool, false, not, ◌&&◌, Option, none, some, List, [], ◌∷◌, ◌++◌, arith,
  ◌==◌, eq_iff, if◌then◌else◌,
}
use cc_orchestrator.Auth.Db.Table.{select, delete, update, has_key, Unique, put, free_after_remove}

-- A row, if it passes the test.
abbrev pub when {ℓ} : {R : Type ℓ} → (R → Bool) → Option R → Option R
when q none = none
when q (some r) = if q r then some r else none

module _ {ℓ} {R : Type ℓ} (key : R → String) where
  -- The row under a key.
  unfoldable pub view : List R → String → Option R
  unfolding select
  view rows k = select (λ r. key r == k) rows

  pub view-none : (k : String) (rows : List R) → has_key key k rows ≡ false → view rows k ≡ none
  unfolding view has_key
  view-none k [] h = refl
  view-none k (r ∷ rs) h = ground (arith, view-none k rs)

  pub has_key-none : (k : String) (rows : List R) → view rows k ≡ none → has_key key k rows ≡ false
  unfolding view has_key
  has_key-none k [] h = refl
  has_key-none k (r ∷ rs) h = ground (arith, has_key-none k rs)

  pub key-view : (k : String) (rows : List R) {r : R} → view rows k ≡ some r → key r ≡ k
  unfolding view
  key-view k [] h = cc
  key-view k (x ∷ xs) {r} h = ground (arith, key-view k xs {r = r}, eq_iff (key x) k)

  pub view-append :
      (rows : List R) (r : R) (j : String)
      → has_key key (key r) rows ≡ false
      → view (rows ++ r ∷ []) j ≡ (if key r == j then some r else view rows j)
  unfolding view has_key
  view-append [] r j h = refl
  view-append (x ∷ xs) r j h =
      ground (arith, view-append xs r j, eq_iff (key x) j, eq_iff (key r) j, eq_iff (key x) (key r))

  -- With unique keys, a selection by key and test finds what stands under the key.
  pub select-key :
      (q : R → Bool) (k : String) (rows : List R)
      → Unique key rows
      → select (λ r. (key r == k) && q r) rows ≡ when q (view rows k)
  unfolding view select
  select-key q k [] u = refl
  select-key q k (x ∷ xs) u =
      ground (arith, select-key q k xs u.1, view-none k xs, eq_iff (key x) k)

  pub view-update :
      (q : R → Bool) (f : R → R) (k j : String) (rows : List R)
      → ((r : R) → key (f r) ≡ key r)
      → view (update (λ r. (key r == k) && q r) f rows) j
        ≡ Option.map (λ r. if (k == j) && q r then f r else r) (view rows j)
  unfolding view update
  view-update q f k j [] same = refl
  view-update q f k j (x ∷ xs) same =
      ground
        (arith, same x, view-update q f k j xs same, eq_iff (key x) j, eq_iff (key x) k, eq_iff k j)

  pub view-delete :
      (d : R → Bool) (j : String) (rows : List R)
      → Unique key rows
      → view (delete d rows) j ≡ when (λ r. not (d r)) (view rows j)
  unfolding view select
  view-delete d j [] u = refl
  view-delete d j (x ∷ xs) u =
      ground (arith, view-delete d j xs u.1, view-none j xs, eq_iff (key x) j)

  -- delete(m, k)
  pub view-remove :
      (k j : String) (rows : List R)
      → view (delete (λ r. key r == k) rows) j ≡ (if k == j then none else view rows j)
  unfolding view select
  view-remove k j [] = ground arith
  view-remove k j (x ∷ xs) =
      ground (arith, view-remove k j xs, eq_iff (key x) j, eq_iff (key x) k, eq_iff k j)

  pub view-put :
      (r : R) (j : String) (rows : List R)
      → view (put key r rows) j ≡ (if key r == j then some r else view rows j)
  unfolding put
  view-put r j rows =
      view-append (delete (λ x. key x == key r) rows) r j (free_after_remove key (key r) rows)
      ∙ rw (view-remove (key r) j rows) (ground arith)
