-- ===== src/Token.antt =====
-- pkg/token/jwt.go: signed access tokens. Times are nanoseconds since the epoch. The JSON encoder,
-- base64 and HMAC-SHA256 are parameters, with the round trips that the code relies on.
pub mod RoundTrip
pub mod Tests
use Prim.Native.Char.{Char, code}
use pokecatch.Prelude.{
  ℕ, ◌/◌, ◌≡◌, String, Bool, true, false, not, ◌&&◌, Option, none, some, List, [], ◌∷◌, ◌==◌,
  if◌then◌else◌,
}
use pokecatch.Prelude.Int.{ℤ, pos, negsuc, ◌+ℤ◌, leb_ℤ}
use pokecatch.Prelude.Outcome.{Result, ok, err}
use pokecatch.Prelude.Text.{◌++◌, split, lacks}

pub record Claims : Type 0 where
  pub sub : String
  pub iat : ℤ
  pub exp : ℤ
  pub ver : ℤ

pub data TokenError : Type 0 where
  malformed bad_signature expired : TokenError

-- encoding/json, base64url, HMAC-SHA256 and hmac.Equal over a type of byte slices.
pub record Codec (Bytes : Type 0) : Type 0 where
  pub marshal : Claims → Option Bytes
  pub unmarshal : Bytes → Option Claims
  pub encode : Bytes → String
  pub decode : String → Option Bytes
  pub hmac : Bytes → String → Bytes
  pub equal : Bytes → Bytes → Bool
  -- jwtHeader, the encoding of a constant
  pub header : String

abbrev pub dot : Char
dot = "."

abbrev pub dot_code : ℕ
dot_code = 46

-- What the libraries promise: base64url writes no full stop, both encodings can be undone, and
-- hmac.Equal is equality.
pub record IsCodec {Bytes : Type 0} (c : Codec Bytes) : Type 0 where
  pub marshals : (m : Claims) (b : Bytes) → c.marshal m ≡ some b → c.unmarshal b ≡ some m
  pub decodes : (b : Bytes) → c.decode (c.encode b) ≡ some b
  pub encode_plain : (b : Bytes) → lacks dot_code (c.encode b) ≡ true
  pub header_plain : lacks dot_code c.header ≡ true
  pub equal_refl : (b : Bytes) → c.equal b b ≡ true
  pub equal_sound : (a b : Bytes) → c.equal a b ≡ true → a ≡ b

-- t.Unix(): whole seconds, rounded down.
unfoldable pub unix : ℤ → ℤ
unix (pos n) = pos (n / 1000000000)
unix (negsuc n) = negsuc (n / 1000000000)

module _ {Bytes : Type 0} (c : Codec Bytes) (secret : Bytes) where
  -- sign, and the text that it signs
  abbrev pub sign : String → Bytes
  sign input = c.hmac secret input

  abbrev pub signed : String → String
  signed input = input ++ "." ++ c.encode (sign input)

  abbrev pub claims_at : ℤ → String → ℤ → ℤ → Claims
  claims_at now account_id ttl ver = record {
    sub = account_id;
    iat = unix now;
    exp = unix (now +ℤ ttl);
    ver = ver;
  }

  -- SignAccessToken; `none` is an error of the JSON encoder.
  unfoldable pub sign_access_token : ℤ → String → ℤ → ℤ → Option String
  sign_access_token now account_id ttl ver = elim (c.marshal (claims_at now account_id ttl ver)) [
    | none ↦ none
    | some json ↦ some (signed (c.header ++ "." ++ c.encode json))
  ]

  abbrev pub check_expiry : ℤ → Option Claims → Result TokenError Claims
  check_expiry now none = err malformed
  check_expiry now (some m) = if leb_ℤ m.exp (unix now) then err expired else ok m

  abbrev pub check_payload : ℤ → Option Bytes → Result TokenError Claims
  check_payload now none = err malformed
  check_payload now (some json) = check_expiry now (c.unmarshal json)

  abbrev pub check_signature : ℤ → String → String → Option Bytes → Result TokenError Claims
  check_signature now head payload none = err malformed
  check_signature now head payload (some got) =
      if c.equal (sign (head ++ "." ++ payload)) got
      then check_payload now (c.decode payload)
      else err bad_signature

  -- The rest of VerifyAccessToken, on the parts of the split.
  pub verify_parts : ℤ → List String → Result TokenError Claims
  verify_parts now (head ∷ payload ∷ sig ∷ []) = check_signature now head payload (c.decode sig)
  verify_parts now _ = err malformed

  unfoldable pub verify_access_token : ℤ → String → Result TokenError Claims
  unfolding verify_parts
  verify_access_token now tok = verify_parts now (split dot_code tok)
