-- ===== src/GoText/Encoding.antt =====
-- hex.EncodeToString and base64.RawURLEncoding.EncodeToString, over bytes.
pub mod Symbols
use Prim.Native.String.{[], ◌∷◌, ◌++◌}
use cc_orchestrator.Prelude.{ℕ, zero, suc, ◌+◌, ◌*◌, ◌/◌, ◌%◌, String, List, ◌≡◌, refl}

-- The symbol of a number, as a text of one character.
symbol : String → ℕ → String
symbol [] n = ""
symbol (c ∷ s) zero = c ∷ ""
symbol (c ∷ s) (suc n) = symbol s n

hex_symbol : ℕ → String
unfolding symbol
hex_symbol = symbol "0123456789abcdef"

base64url_symbol : ℕ → String
unfolding symbol
base64url_symbol = symbol "ABCDEFGHIJKLMNOPQRSTUVWXYZabcdefghijklmnopqrstuvwxyz0123456789-_"

unfoldable pub hex_encode : List ℕ → String
unfolding hex_symbol
hex_encode (List.[]) = ""
hex_encode (List.◌∷◌ b bs) = hex_symbol (b / 16) ++ (hex_symbol (b % 16) ++ hex_encode bs)

-- Three bytes make four symbols; one or two bytes at the end make two or three, with no padding.
unfoldable pub base64url_encode : List ℕ → String
unfolding base64url_symbol
base64url_encode (List.[]) = ""
base64url_encode (List.◌∷◌ a (List.[])) = base64url_symbol (a / 4) ++ base64url_symbol (a % 4 * 16)
base64url_encode (List.◌∷◌ a (List.◌∷◌ b (List.[]))) =
    base64url_symbol (a / 4)
    ++ (base64url_symbol (a % 4 * 16 + b / 16) ++ base64url_symbol (b % 16 * 4))
base64url_encode (List.◌∷◌ a (List.◌∷◌ b (List.◌∷◌ c rest))) =
    base64url_symbol (a / 4)
    ++ (base64url_symbol (a % 4 * 16 + b / 16)
        ++ (base64url_symbol (b % 16 * 4 + c / 64)
            ++ (base64url_symbol (c % 64) ++ base64url_encode rest)))

hex_example : hex_encode (List.◌∷◌ 0 (List.◌∷◌ 255 (List.◌∷◌ 26 List.[]))) ≡ "00ff1a"
unfolding hex_encode
hex_example = refl

-- "foob" and "fo" of RFC 4648, section 10, without padding.
base64url_example :
    (base64url_encode (List.◌∷◌ 102 (List.◌∷◌ 111 (List.◌∷◌ 111 (List.◌∷◌ 98 List.[])))) ≡ "Zm9vYg")
    × (base64url_encode (List.◌∷◌ 102 (List.◌∷◌ 111 List.[])) ≡ "Zm8")
unfolding base64url_encode
base64url_example = (refl, refl)
