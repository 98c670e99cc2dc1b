-- ===== src/GoText/RoundTrip.antt =====
-- Words survive joining and splitting.
use Prim.Native.Char.{Char, code}
use Prim.Native.String.{[], ◌∷◌, ◌++◌}
use text.Mathlib.TextLemmas.{nil-append, cons-append, append-nil}
use cc_orchestrator.Prelude.{
  String, ◌≡◌, refl, sym, ap, ◌∙◌, Bool, true, false, List, All, inl, inr, Bool-cases,
}
use cc_orchestrator.GoText.{is_space, starts_word, attach, fields, join}

-- No character of the text is white space.
abbrev pub IsSolid : String → Type 0
IsSolid [] = Unit
IsSolid (c ∷ s) = (is_space (code c) ≡ false) × IsSolid s

abbrev pub IsWord : String → Type 0
IsWord s = (starts_word s ≡ true) × IsSolid s

starts_word-cons : (c : Char) (s : String) → is_space (code c) ≡ false → starts_word (c ∷ s) ≡ true
starts_word-cons c s h = rw h

fields-cons :
    (c : Char) (s : String)
    → is_space (code c) ≡ false
    → fields (c ∷ s) ≡ attach c (starts_word s) (fields s)
unfolding fields
fields-cons c s h = rw h

fields-append :
    (w t : String) → IsWord w → starts_word t ≡ false → fields (w ++ t) ≡ List.◌∷◌ w (fields t)
fields-append [] t h gap = cc h.0
fields-append (c ∷ []) t h gap = rw (cons-append, nil-append, fields-cons c t h.1.0, gap)
fields-append (c ∷ (d ∷ w)) t (_, (hc, (hd, hw))) gap =
    let more = starts_word-cons d w hd in
    let ih : fields (d ∷ (w ++ t)) ≡ List.◌∷◌ (d ∷ w) (fields t) =
      rw (← cons-append d w t) (fields-append (d ∷ w) t (more, (hd, hw)) gap) in
    rw (cons-append, cons-append)
      (rw (fields-cons c (d ∷ (w ++ t)) hc, starts_word-cons d (w ++ t) hd, ih))

starts_word-gap : (t : String) → starts_word (" " ++ t) ≡ false
unfolding is_space
starts_word-gap t = rw cons-append

fields-gap : (t : String) → fields (" " ++ t) ≡ fields t
unfolding fields is_space
fields-gap t = rw (cons-append, nil-append)

pub fields-join : (ws : List String) → All IsWord ws → fields (join ws) ≡ ws
unfolding join
fields-join (List.[]) h = unfold fields in refl
fields-join (List.◌∷◌ w (List.[])) h =
    let e = fields-append w "" h.0 refl in
    ap fields (sym (append-nil w)) ∙ (e ∙ (unfold fields in refl))
fields-join (List.◌∷◌ w (List.◌∷◌ v ws)) h =
    fields-append w (" " ++ join (List.◌∷◌ v ws)) h.0 (starts_word-gap _)
    ∙ ap (List.◌∷◌ w) (fields-gap _ ∙ fields-join (List.◌∷◌ v ws) h.1)

-- What `fields` returns are words.
IsWord-attach :
    (c : Char) (b : Bool) (ws : List String)
    → is_space (code c) ≡ false
    → All IsWord ws
    → All IsWord (attach c b ws)
IsWord-attach c true (List.◌∷◌ w ws) h k = ((rw h, (h, k.0.1)), k.1)
IsWord-attach c _ ws h k = ((rw h, (h, tt)), k)

pub fields-IsWord : (s : String) → All IsWord (fields s)
unfolding fields
fields-IsWord [] = tt
fields-IsWord (c ∷ s) = elim (Bool-cases (is_space (code c))) [
  | inl gap ↦ rw gap (fields-IsWord s)
  | inr solid ↦ rw solid (IsWord-attach c (starts_word s) (fields s) solid (fields-IsWord s))
]

-- Splitting what was split and joined gives the same words.
pub fields-join-fields : (s : String) → fields (join (fields s)) ≡ fields s
fields-join-fields s = fields-join (fields s) (fields-IsWord s)
