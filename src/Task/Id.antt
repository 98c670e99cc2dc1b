-- ===== src/Task/Id.antt =====
-- app/api/domain/task/id.go
use Prim.Native.String.{◌++◌}
use cc_orchestrator.Prelude.{
  ℕ, zero, suc, ◌+◌, ◌%◌, String, none, some, List, [], ◌∷◌, take, drop, ok,
}
use cc_orchestrator.GoText.Encoding.{hex_encode}
use cc_orchestrator.Action.{Action, tick}

abbrev pub set_at : ℕ → (ℕ → ℕ) → List ℕ → List ℕ
set_at n f [] = []
set_at zero f (b ∷ bs) = f b ∷ bs
set_at (suc n) f (b ∷ bs) = b ∷ set_at n f bs

abbrev zeros : ℕ → List ℕ
zeros zero = []
zeros (suc n) = 0 ∷ zeros n

-- The bits of the version, 4, and of the variant.
abbrev pub version_bits : List ℕ → List ℕ
version_bits buf = set_at 8 (λ b. b % 64 + 0x80) (set_at 6 (λ b. b % 16 + 0x40) buf)

-- %x-%x-%x-%x-%x
unfoldable pub format_id : List ℕ → String
format_id buf =
    hex_encode (take 4 buf)
    ++ ("-"
        ++ (hex_encode (take 2 (drop 4 buf))
            ++ ("-"
                ++ (hex_encode (take 2 (drop 6 buf))
                    ++ ("-"
                        ++ (hex_encode (take 2 (drop 8 buf))
                            ++ ("-" ++ hex_encode (take 6 (drop 10 buf)))))))))

-- An error of rand.Read leaves the buffer of zeros.
unfoldable pub new_id : {E S : Type 0} → Action E S String
unfolding format_id
new_id env w = (
  ok (
      format_id
        (version_bits (elim (env.entropy w.step 16) [ none ↦ zeros 16 | some bytes ↦ bytes ]))),
  tick w,
)
