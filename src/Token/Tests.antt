-- ===== src/Token/Tests.antt =====
-- A token of pkg/token/jwt.go over a codec of two byte slices: the JSON of one account's claims, and
-- a MAC.
use pokecatch.Prelude.{
  ℕ, ◌≡◌, refl, sym, ap, String, Bool, true, false, ◌&&◌, Option, none, some, ◌∷◌, [], arith,
  Bool-cases, inl, inr, if◌then◌else◌, str_eq, eq_iff,
}
use pokecatch.Prelude.Int.{ℤ, pos, negsuc, ◌+ℤ◌, leb_ℤ, eq_ℤ}
use pokecatch.Prelude.Outcome.{ok, err}
use pokecatch.Prelude.Text.{split, lacks}
use pokecatch.Token.{
  Claims, expired, Codec, IsCodec, dot_code, unix, claims_at, sign_access_token,
  verify_access_token,
}
use pokecatch.Token.RoundTrip.{verify-sign, verify_ok, AreGood}

pub data Slice : Type 0 where
  document mac : Slice

abbrev pub slice_eq : Slice → Slice → Bool
slice_eq document document = true
slice_eq mac mac = true
slice_eq _ _ = false

abbrev ada : Claims
ada = record { sub = "ada"; iat = pos 5; exp = pos 905; ver = pos 1 }

abbrev is_ada : Claims → Bool
is_ada m = str_eq m.sub "ada" && eq_ℤ m.iat (pos 5) && eq_ℤ m.exp (pos 905) && eq_ℤ m.ver (pos 1)

abbrev pub of_text : String → Option Slice
of_text s = if str_eq s "p" then some document else if str_eq s "m" then some mac else none

abbrev pub to_text : Slice → String
to_text document = "p"
to_text mac = "m"

abbrev read : Slice → Option Claims
read document = some ada
read mac = none

abbrev pub codec : Codec Slice
codec = record {
  marshal = λ m. if is_ada m then some document else none;
  unmarshal = read;
  encode = to_text;
  decode = of_text;
  hmac = λ key text. mac;
  equal = slice_eq;
  header = "h";
}

eq_of_eq_ℤ : (a : ℤ) (n : ℕ) → eq_ℤ a (pos n) ≡ true → a ≡ pos n
eq_of_eq_ℤ (pos m) n h = ground (arith, h)
eq_of_eq_ℤ (negsuc m) n h = absurd (ground (arith, h))

ada_only : (m : Claims) → is_ada m ≡ true → m ≡ ada
ada_only m h =
    ground
      (arith, h, eq_iff m.sub "ada", eq_of_eq_ℤ m.iat 5, eq_of_eq_ℤ m.exp 905, eq_of_eq_ℤ m.ver 1)

reads_back : (m : Claims) (b : Slice) → codec.marshal m ≡ some b → read b ≡ some m
reads_back m document h = elim (Bool-cases (is_ada m)) [
  | inl e ↦ ap some (sym (ada_only m e))
  | inr e ↦ absurd (ground (arith, h, e))
]
reads_back m mac h = elim (Bool-cases (is_ada m)) [
  | inl e ↦ absurd (ground (arith, h, e))
  | inr e ↦ absurd (ground (arith, h, e))
]

pub decode-encode : (b : Slice) → of_text (to_text b) ≡ some b
decode-encode document = refl
decode-encode mac = refl

to_text_plain : (b : Slice) → lacks dot_code (to_text b) ≡ true
unfolding lacks
to_text_plain document = refl
to_text_plain mac = refl

slice_eq_refl : (b : Slice) → slice_eq b b ≡ true
slice_eq_refl document = refl
slice_eq_refl mac = refl

eq_of_slice_eq : (a b : Slice) → slice_eq a b ≡ true → a ≡ b
eq_of_slice_eq document document h = refl
eq_of_slice_eq document mac h = cc h
eq_of_slice_eq mac document h = cc h
eq_of_slice_eq mac mac h = refl

pub codec-IsCodec : IsCodec codec
unfolding lacks
codec-IsCodec = record {
  marshals = reads_back;
  decodes = decode-encode;
  encode_plain = to_text_plain;
  header_plain = refl;
  equal_refl = slice_eq_refl;
  equal_sound = eq_of_slice_eq;
}

abbrev token : String
token = "h.p.m"

verify-sign_example :
    (tok : String) × (sign_access_token codec mac (pos 5000000000) "ada" (pos 900000000000) (pos 1)
      ≡ some tok)
    × (verify_access_token codec mac (pos 6000000000) tok ≡ (
        if leb_ℤ (unix (pos 5000000000 +ℤ pos 900000000000)) (unix (pos 6000000000))
        then err expired
        else ok (claims_at codec mac (pos 5000000000) "ada" (pos 900000000000) (pos 1))))
unfolding unix ◌+ℤ◌
verify-sign_example =
    verify-sign codec mac (pos 5000000000) (pos 6000000000) "ada" (pos 900000000000) (pos 1)
      document codec-IsCodec refl

verify_ok_example :
    (head payload sig : String) × (split dot_code token ≡ head ∷ payload ∷ sig ∷ [])
    × AreGood codec mac (pos 6000000000) ada head payload sig
unfolding verify_access_token split unix
verify_ok_example = verify_ok codec mac (pos 6000000000) token ada codec-IsCodec refl
