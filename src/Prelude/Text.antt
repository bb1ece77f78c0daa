-- ===== src/Prelude/Text.antt =====
-- strings.Split by one character, strings.HasPrefix and strings.Join, as recursions on the text.
use Prim.Native.Nat.{ℕ}
use Prim.Native.Char.{Char, code}
use Prim.Native.String as Native
use Prim.Native.String.{String}
use Prim.Native.String.append
use pokecatch.Prelude.{
  Option, none, some, leb, ltb, ◌+◌, ◌≡◌, refl, ap, ◌∙◌, Bool, true, false, ◌&&◌, ◌||◌, not, List,
  [], ◌∷◌, ◌==◌, ◌⊎◌, inl, inr, arith, if◌then◌else◌,
}

infixr 65 ◌++◌
abbrev pub ◌++◌ : String → String → String
s ++ t = Native.◌++◌ s t

-- A text that begins with the character `c`.
abbrev with_head : Char → List String → List String
with_head c [] = Native.◌∷◌ c Native.[] ∷ []
with_head c (s ∷ ss) = Native.◌∷◌ c s ∷ ss

unfoldable pub split : ℕ → String → List String
split sep Native.[] = Native.[] ∷ []
split sep (Native.◌∷◌ c s) =
    let rest = split sep s in if code c == sep then Native.[] ∷ rest else with_head c rest

-- The text does not hold the character.
unfoldable pub lacks : ℕ → String → Bool
lacks sep Native.[] = true
lacks sep (Native.◌∷◌ c s) = not (code c == sep) && lacks sep s

char-append : (c : Char) (t : String) → Native.◌∷◌ c Native.[] ++ t ≡ Native.◌∷◌ c t
char-append c t = append.cons c Native.[] t ∙ ap (Native.◌∷◌ c) (append.nil t)

pub split-lacks : (sep : ℕ) (s : String) → lacks sep s ≡ true → split sep s ≡ s ∷ []
unfolding split lacks
split-lacks sep Native.[] h = refl
split-lacks sep (Native.◌∷◌ c s) h = ground (arith, h, split-lacks sep s)

split-cons :
    (c : Char) (s t : String)
    → lacks (code c) s ≡ true
    → split (code c) (s ++ Native.◌∷◌ c t) ≡ s ∷ split (code c) t
unfolding split lacks
split-cons c Native.[] t h = rw (append.nil (Native.◌∷◌ c t)) (ground arith)
split-cons c (Native.◌∷◌ d s) t h =
    rw (append.cons d s (Native.◌∷◌ c t)) (ground (arith, h, split-cons c s t))

-- A text up to its first separator.
pub split-append :
    (c : Char) (s t : String)
    → lacks (code c) s ≡ true
    → split (code c) (s ++ Native.◌∷◌ c Native.[] ++ t) ≡ s ∷ split (code c) t
split-append c s t h = ap (λ u. split (code c) (s ++ u)) (char-append c t) ∙ split-cons c s t h

-- strings.HasPrefix
unfoldable pub has_prefix : String → String → Bool
has_prefix s Native.[] = true
has_prefix Native.[] (Native.◌∷◌ d p) = false
has_prefix (Native.◌∷◌ c s) (Native.◌∷◌ d p) = code c == code d && has_prefix s p

-- Of two prefixes of one text, one is a prefix of the other.
pub has_prefix_chain :
    (s p q : String)
    → has_prefix s p ≡ true
    → has_prefix s q ≡ true
    → (has_prefix p q ≡ true) ⊎ (has_prefix q p ≡ true)
unfolding has_prefix
has_prefix_chain s Native.[] q h k = inr refl
has_prefix_chain s (Native.◌∷◌ d p) Native.[] h k = inl refl
has_prefix_chain Native.[] (Native.◌∷◌ d p) (Native.◌∷◌ e q) h k = cc h
has_prefix_chain (Native.◌∷◌ c s) (Native.◌∷◌ d p) (Native.◌∷◌ e q) h k =
    elim (has_prefix_chain s p q (ground arith) (ground arith)) [
      | inl a ↦ inl (ground arith)
      | inr a ↦ inr (ground arith)
    ]

pub append_assoc : (s t u : String) → (s ++ t) ++ u ≡ s ++ (t ++ u)
append_assoc Native.[] t u = rw (append.nil t, append.nil (t ++ u)) refl
append_assoc (Native.◌∷◌ c s) t u =
    rw (append.cons c s t, append.cons c (s ++ t) u, append.cons c s (t ++ u))
      (ap (Native.◌∷◌ c) (append_assoc s t u))

-- unicode.IsSpace
abbrev is_space : ℕ → Bool
is_space c =
    (leb 9 c && leb c 13)
    || (c == 32)
    || (c == 133)
    || (c == 160)
    || (c == 5760)
    || (leb 8192 c && leb c 8202)
    || (c == 8232)
    || (c == 8233)
    || (c == 8239)
    || (c == 8287)
    || (c == 12288)

abbrev trim_left : String → String
trim_left Native.[] = Native.[]
trim_left (Native.◌∷◌ c s) = if is_space (code c) then trim_left s else Native.◌∷◌ c s

-- Takes a space off only if nothing but spaces comes after it.
abbrev keep_head : Char → String → String
keep_head c Native.[] = if is_space (code c) then Native.[] else Native.◌∷◌ c Native.[]
keep_head c (Native.◌∷◌ d s) = Native.◌∷◌ c (Native.◌∷◌ d s)

abbrev trim_right : String → String
trim_right Native.[] = Native.[]
trim_right (Native.◌∷◌ c s) = keep_head c (trim_right s)

-- strings.TrimSpace
unfoldable pub trim_space : String → String
trim_space s = trim_left (trim_right s)

-- s[len(p):], if s begins with p
unfoldable pub strip_prefix : String → String → Option String
strip_prefix s Native.[] = some s
strip_prefix Native.[] (Native.◌∷◌ d p) = none
strip_prefix (Native.◌∷◌ c s) (Native.◌∷◌ d p) =
    let rest = strip_prefix s p in if code c == code d then rest else none

-- s[:strings.LastIndex(s, sep)], if s holds the character
unfoldable pub before_last : ℕ → String → Option String
before_last sep Native.[] = none
before_last sep (Native.◌∷◌ c s) = elim (before_last sep s) [
  | some t ↦ some (Native.◌∷◌ c t)
  | none ↦ if code c == sep then some Native.[] else none
]

-- len(s): the bytes of the UTF-8 text
abbrev char_bytes : ℕ → ℕ
char_bytes c = if ltb c 128 then 1 else if ltb c 2048 then 2 else if ltb c 65536 then 3 else 4

unfoldable pub byte_length : String → ℕ
byte_length Native.[] = 0
byte_length (Native.◌∷◌ c s) = char_bytes (code c) + byte_length s
