-- ===== src/GoText/Encoding/Symbols.antt =====
-- An encoded text has no full stop, so the parts of a JWT are found again by splitting.
use Prim.Native.Char.{code}
use Prim.Native.String.{[], ◌∷◌, ◌++◌}
use text.Mathlib.TextLemmas.{nil-append, cons-append}
use cc_orchestrator.Prelude.{
  ℕ, zero, suc, String, Bool, true, not, ◌&&◌, List, ◌≡◌, refl, ◌=ℕ◌, arith,
}
use cc_orchestrator.GoText.{split}
use cc_orchestrator.GoText.Encoding.{symbol, base64url_symbol, base64url_encode}

-- No character of the text has this code.
abbrev pub lacks : ℕ → String → Bool
lacks sep [] = true
lacks sep (c ∷ s) = not (code c =ℕ sep) && lacks sep s

lacks-append : (sep : ℕ) (s t : String) → lacks sep (s ++ t) ≡ (lacks sep s && lacks sep t)
lacks-append sep [] t = rw nil-append refl
lacks-append sep (c ∷ s) t = rw (cons-append, lacks-append sep s t) (ground arith)

lacks-symbol : (sep : ℕ) (s : String) (n : ℕ) → lacks sep s ≡ true → lacks sep (symbol s n) ≡ true
unfolding symbol
lacks-symbol sep [] n h = refl
lacks-symbol sep (c ∷ s) zero h = ground arith
lacks-symbol sep (c ∷ s) (suc n) h = lacks-symbol sep s n (ground arith)

lacks-base64url_symbol : (n : ℕ) → lacks b'.' (base64url_symbol n) ≡ true
unfolding base64url_symbol
lacks-base64url_symbol n =
    lacks-symbol b'.' "ABCDEFGHIJKLMNOPQRSTUVWXYZabcdefghijklmnopqrstuvwxyz0123456789-_" n refl

pub lacks-base64url_encode : (bs : List ℕ) → lacks b'.' (base64url_encode bs) ≡ true
unfolding base64url_encode
lacks-base64url_encode (List.[]) = refl
lacks-base64url_encode (List.◌∷◌ a (List.[])) = simp (lacks-append, lacks-base64url_symbol)
lacks-base64url_encode (List.◌∷◌ a (List.◌∷◌ b (List.[]))) =
    simp (lacks-append, lacks-base64url_symbol)
lacks-base64url_encode (List.◌∷◌ a (List.◌∷◌ b (List.◌∷◌ c rest))) =
    simp (lacks-append, lacks-base64url_symbol, lacks-base64url_encode rest)

-- A text without the separator is one part.
pub split-lacks : (s : String) → lacks b'.' s ≡ true → split b'.' s ≡ List.◌∷◌ s List.[]
unfolding split
split-lacks [] h = refl
split-lacks (c ∷ s) h = ground (arith, split-lacks s)

-- In front of a separator it is the first part.
pub split-append :
    (s t : String) → lacks b'.' s ≡ true → split b'.' (s ++ ("." ++ t)) ≡ List.◌∷◌ s (split b'.' t)
unfolding split
split-append [] t h = rw (nil-append, cons-append, nil-append) refl
split-append (c ∷ s) t h = rw cons-append (ground (arith, split-append s t))
