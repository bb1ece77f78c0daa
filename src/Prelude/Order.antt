-- ===== src/Prelude/Order.antt =====
-- Go's `<` on strings, character by character: the order of the UTF-8 bytes is that of the code points.
use Prim.Native.Char.{code}
use Prim.Native.String as Native
use Prim.Native.String.{String}
use text.Mathlib.TextEquality.{Char-path}
use pokecatch.Prelude.{
  ◌≡◌, ◌≢◌, ◌↔◌, refl, ap, ◌∙◌, Bool, true, false, ◌&&◌, ◌||◌, ltb, ◌==◌, arith,
}

unfoldable pub str_lt : String → String → Bool
str_lt Native.[] Native.[] = false
str_lt Native.[] (Native.◌∷◌ d t) = true
str_lt (Native.◌∷◌ c s) Native.[] = false
str_lt (Native.◌∷◌ c s) (Native.◌∷◌ d t) =
    ltb (code c) (code d) || ((code c == code d) && str_lt s t)

pub str_lt_irrefl : (s : String) → str_lt s s ≡ false
unfolding str_lt
str_lt_irrefl Native.[] = refl
str_lt_irrefl (Native.◌∷◌ c s) = ground (arith, str_lt_irrefl s)

pub str_lt_trans : (s t u : String) → str_lt s t ≡ true → str_lt t u ≡ true → str_lt s u ≡ true
unfolding str_lt
str_lt_trans s Native.[] Native.[] h k = absurd (cc k)
str_lt_trans Native.[] Native.[] (Native.◌∷◌ e u) h k = refl
str_lt_trans (Native.◌∷◌ c s) Native.[] (Native.◌∷◌ e u) h k = absurd (cc h)
str_lt_trans s (Native.◌∷◌ d t) Native.[] h k = absurd (cc k)
str_lt_trans Native.[] (Native.◌∷◌ d t) (Native.◌∷◌ e u) h k = refl
str_lt_trans (Native.◌∷◌ c s) (Native.◌∷◌ d t) (Native.◌∷◌ e u) h k =
    ground (arith, h, k, str_lt_trans s t u)

pub str_lt_total : (s t : String) → str_lt s t ≡ false → str_lt t s ≡ false → s ≡ t
unfolding str_lt
str_lt_total Native.[] Native.[] h k = refl
str_lt_total Native.[] (Native.◌∷◌ d t) h k = absurd (cc h)
str_lt_total (Native.◌∷◌ c s) Native.[] h k = absurd (cc k)
str_lt_total (Native.◌∷◌ c s) (Native.◌∷◌ d t) h k =
    ap (λ x. Native.◌∷◌ x s) (Char-path c d (ground (arith, h, k)))
    ∙ ap (Native.◌∷◌ d) (str_lt_total s t (ground (arith, h, k)) (ground (arith, h, k)))

pub str_lt_empty : (s : String) → (str_lt "" s ≡ true) ↔ (s ≢ "")
unfolding str_lt
str_lt_empty Native.[] = (λ h. absurd (cc h), λ n. absurd (n refl))
str_lt_empty (Native.◌∷◌ d t) = (λ h e. cc e, λ n. refl)
