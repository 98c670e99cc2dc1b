-- ===== src/Auth/Db/Table.antt =====
-- SQL statements over a table, as functions of its rows, and tables with a primary key.
pub mod View
use mathlib.Core.Path.{subst}
use cc_orchestrator.Prelude.{
  String, ◌≡◌, refl, Bool, true, false, not, Option, none, some, List, [], ◌∷◌, ◌++◌, arith, keep,
  ◌==◌, eq_iff, inl, inr, Bool-cases, if◌then◌else◌,
}

module _ {ℓ} {R : Type ℓ} where
  -- SELECT … WHERE p, the first row
  unfoldable pub select : (R → Bool) → List R → Option R
  select p [] = none
  select p (r ∷ rs) = let rest = select p rs in if p r then some r else rest

  -- DELETE … WHERE p
  abbrev pub delete : (R → Bool) → List R → List R
  delete p rows = keep (λ r. not (p r)) rows

  -- UPDATE … SET f WHERE p
  unfoldable pub update : (R → Bool) → (R → R) → List R → List R
  update p f [] = []
  update p f (r ∷ rs) = (if p r then f r else r) ∷ update p f rs

  module _ (key : R → String) where
    unfoldable pub has_key : String → List R → Bool
    has_key k [] = false
    has_key k (r ∷ rs) = let rest = has_key k rs in if key r == k then true else rest

    -- No two rows share a key.
    abbrev pub Unique : List R → Type 0
    Unique [] = Unit
    Unique (r ∷ rs) = (has_key (key r) rs ≡ false) × Unique rs

    -- m[key] = r, where a row stands for an entry of a map
    unfoldable pub put : R → List R → List R
    put r rows = keep (λ x. not (key x == key r)) rows ++ r ∷ []

    -- INSERT; `none` is a violation of the primary key
    unfoldable pub insert : R → List R → Option (List R)
    insert r rows = if has_key (key r) rows then none else some (rows ++ r ∷ [])

==_comm : (a b : String) → (a == b) ≡ (b == a)
==_comm a b = ground (arith, eq_iff a b, eq_iff b a)

module _ {ℓ} {R : Type ℓ} where
  -- What a selected row satisfies.
  pub select_sound : (p : R → Bool) (rows : List R) {r : R} → select p rows ≡ some r → p r ≡ true
  unfolding select
  select_sound p [] h = cc
  select_sound p (x ∷ xs) {r} h = ground (arith, select_sound p xs {r = r})

  -- An update that finds no row changes nothing.
  pub update-none :
      (p : R → Bool) (f : R → R) (rows : List R) → select p rows ≡ none → update p f rows ≡ rows
  unfolding select update
  update-none p f [] h = refl
  update-none p f (r ∷ rs) h = ground (arith, update-none p f rs)

  module _ (key : R → String) where
    pub has_key-keep :
        (p : R → Bool) (k : String) (rows : List R)
        → has_key key k rows ≡ false
        → has_key key k (keep p rows) ≡ false
    unfolding has_key
    has_key-keep p k [] h = refl
    has_key-keep p k (r ∷ rs) h = ground (arith, has_key-keep p k rs)

    pub Unique-keep : (p : R → Bool) (rows : List R) → Unique key rows → Unique key (keep p rows)
    Unique-keep p [] h = tt
    Unique-keep p (r ∷ rs) h = ground (arith, Unique-keep p rs h.1, has_key-keep p (key r) rs h.0)

    pub has_key-update :
        (p : R → Bool) (f : R → R) (k : String) (rows : List R)
        → ((r : R) → key (f r) ≡ key r)
        → has_key key k (update p f rows) ≡ has_key key k rows
    unfolding has_key update
    has_key-update p f k [] same = refl
    has_key-update p f k (r ∷ rs) same = ground (arith, same r, has_key-update p f k rs same)

    pub Unique-update :
        (p : R → Bool) (f : R → R) (rows : List R)
        → ((r : R) → key (f r) ≡ key r)
        → Unique key rows
        → Unique key (update p f rows)
    unfolding update
    Unique-update p f [] same h = tt
    Unique-update p f (r ∷ rs) same h = ground (
      arith,
      same r,
      Unique-update p f rs same h.1,
      has_key-update p f (key r) rs same,
      has_key-update p f (key (f r)) rs same,
    )

    pub has_key-append :
        (k : String) (rows : List R) (r : R)
        → has_key key k rows ≡ false
        → (key r == k) ≡ false
        → has_key key k (rows ++ r ∷ []) ≡ false
    unfolding has_key
    has_key-append k [] r h d = rw d
    has_key-append k (x ∷ xs) r h d = ground (arith, has_key-append k xs r)

    pub Unique-append :
        (rows : List R) (r : R)
        → has_key key (key r) rows ≡ false
        → Unique key rows
        → Unique key (rows ++ r ∷ [])
    unfolding has_key
    Unique-append [] r h u = (refl, tt)
    Unique-append (x ∷ xs) r h u = (
      has_key-append (key x) xs r u.0 (ground (arith, ==_comm (key r) (key x))),
      Unique-append xs r (ground arith) u.1,
    )

    -- An insertion that goes through is of a new key, and puts the row at the end.
    pub insert-eq-some :
        (r : R) (rows rows' : List R)
        → insert key r rows ≡ some rows'
        → (has_key key (key r) rows ≡ false) × (rows ++ r ∷ [] ≡ rows')
    unfolding insert
    insert-eq-some r rows rows' h = (ground arith, ground arith)

    pub Unique-insert :
        (r : R) (rows rows' : List R)
        → Unique key rows
        → insert key r rows ≡ some rows'
        → Unique key rows'
    Unique-insert r rows rows' u h =
        let (free, e) = insert-eq-some r rows rows' h in
        subst (Unique key) e (Unique-append rows r free u)

    has_key-remove :
        (k : String) (rows : List R) → has_key key k (keep (λ x. not (key x == k)) rows) ≡ false
    unfolding has_key
    has_key-remove k [] = refl
    has_key-remove k (x ∷ xs) = ground (arith, has_key-remove k xs)

    Unique-put : (r : R) (rows : List R) → Unique key rows → Unique key (put key r rows)
    unfolding put
    Unique-put r rows u =
        Unique-append (keep (λ x. not (key x == key r)) rows) r (has_key-remove (key r) rows)
          (Unique-keep (λ x. not (key x == key r)) rows u)

    pub free_after_remove :
        (k : String) (rows : List R) → has_key key k (delete (λ x. key x == k) rows) ≡ false
    free_after_remove k rows = has_key-remove k rows
