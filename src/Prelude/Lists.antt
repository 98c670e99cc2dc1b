-- ===== src/Prelude/Lists.antt =====
-- Lists measured by native numbers, predicates over lists, and sets of texts as lists.
use Prim.Native.Nat.{ℕ, zero, suc, ◌+◌, ◌≤◌}
use Prim.Native.String.{String}
use mathlib.Core.Path.{◌≡◌, refl}
use mathlib.Core.Logic.{◌⊎◌, inl, inr}
use mathlib.Core.Bool.{Bool, true, false, ◌||◌, ◌&&◌}
use mathlib.Core.List.{List, [], ◌∷◌, ◌++◌}
use native.Mathlib.Omega.{arith}
use text.Mathlib.Text.{◌==◌}
use text.Mathlib.TextEquality.{eq_iff}
use cc_orchestrator.Prelude.Tests.{if◌then◌else◌, Bool-cases}

module _ {ℓ} {A : Type ℓ} where
  abbrev pub length : List A → ℕ
  length [] = 0
  length (x ∷ xs) = suc (length xs)

  -- The elements that pass a test.
  abbrev pub keep : (A → Bool) → List A → List A
  keep p [] = []
  keep p (x ∷ xs) = let rest = keep p xs in if p x then x ∷ rest else rest

  -- The first n elements, and the others.
  abbrev pub take : ℕ → List A → List A
  take zero xs = []
  take (suc n) [] = []
  take (suc n) (x ∷ xs) = x ∷ take n xs

  abbrev pub drop : ℕ → List A → List A
  drop zero xs = xs
  drop (suc n) [] = []
  drop (suc n) (x ∷ xs) = drop n xs

  abbrev pub all : (A → Bool) → List A → Bool
  all p [] = true
  all p (x ∷ xs) = p x && all p xs

  pub length-keep-le : (p : A → Bool) (xs : List A) → length (keep p xs) ≤ length xs
  length-keep-le p [] = omega arith
  length-keep-le p (x ∷ xs) = ground (arith, length-keep-le p xs)

  pub length-take-le : (n : ℕ) (xs : List A) → length (take n xs) ≤ n
  length-take-le zero xs = omega arith
  length-take-le (suc n) [] = omega arith
  length-take-le (suc n) (x ∷ xs) = let more = length-take-le n xs in omega arith

  -- A part of a list that begins behind n elements ends inside the list, or is empty.
  pub take-drop :
      (m n : ℕ) (xs : List A)
      → (n + length (take m (drop n xs)) ≤ length xs) ⊎ (take m (drop n xs) ≡ [])
  take-drop zero n xs = inr refl
  take-drop (suc m) zero [] = inr refl
  take-drop (suc m) zero (x ∷ xs) = let more = take_fits m xs in inl (omega arith)
    where
      take_fits : (m : ℕ) (xs : List A) → length (take m xs) ≤ length xs
      take_fits zero xs = omega arith
      take_fits (suc m) [] = omega arith
      take_fits (suc m) (x ∷ xs) = let more = take_fits m xs in omega arith
  take-drop (suc m) (suc n) [] = inr refl
  take-drop (suc m) (suc n) (x ∷ xs) = elim (take-drop (suc m) n xs) [
    | inl fits ↦ inl (omega arith)
    | inr none_left ↦ inr none_left
  ]

module _ {ℓ κ} {A : Type ℓ} (P : A → Type κ) where
  abbrev pub All : List A → Type κ
  All [] = Unit
  All (x ∷ xs) = P x × All xs

  pub All-append : (xs ys : List A) → All xs → All ys → All (xs ++ ys)
  All-append [] ys h k = k
  All-append (x ∷ xs) ys (p, h) k = (p, All-append xs ys h k)

-- Membership in a list of texts.
abbrev pub contains : List String → String → Bool
contains [] v = false
contains (x ∷ xs) v = x == v || contains xs v

pub contains-append :
    (xs ys : List String) (v : String) → contains (xs ++ ys) v ≡ (contains xs v || contains ys v)
contains-append [] ys v = refl
contains-append (x ∷ xs) ys v = elim (Bool-cases (x == v)) [
  | inl e ↦ rw e
  | inr e ↦ rw e (contains-append xs ys v)
]

-- Every text of a list passes a test exactly when each member does.
pub all_of_members :
    (p : String → Bool) (xs : List String)
    → ((v : String) → contains xs v ≡ true → p v ≡ true)
    → all p xs ≡ true
all_of_members p [] h = refl
all_of_members p (x ∷ xs) h =
    ground (arith, h x, eq_iff x x, all_of_members p xs (λ v m. h v (ground arith)))

pub member_of_all :
    (p : String → Bool) (xs : List String) (v : String)
    → all p xs ≡ true
    → contains xs v ≡ true
    → p v ≡ true
member_of_all p [] v h m = cc
member_of_all p (x ∷ xs) v h m = elim (Bool-cases (x == v)) [
  | inl e ↦ rw (← (eq_iff x v).0 e) (ground arith)
  | inr e ↦ member_of_all p xs v (ground arith) (ground arith)
]
