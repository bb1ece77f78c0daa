-- ===== src/Auth/Password.antt =====
-- services/auth/internal/password.go. argon2, base64, subtle and fmt are parameters; a byte slice is
-- of a type of theirs.
pub mod RoundTrip
use pokecatch.Prelude.{
  ℕ, ◌%◌, ◌≡◌, ◌<◌, String, Bool, true, false, not, Option, none, some, List, [], ◌∷◌, ltb, str_eq,
  if◌then◌else◌,
}
use pokecatch.Prelude.Int.{ℤ, pos}
use pokecatch.Prelude.Outcome.{Result, ok, err}
use pokecatch.Prelude.Text.{◌++◌, split, lacks, byte_length}
use pokecatch.Auth.Store.{AuthError, password_short, random_failed, hash_format}

-- argon2Params, less the lengths that VerifyPassword does not read
pub record Params : Type 0 where
  pub memory_kib : ℕ
  pub time : ℕ
  pub threads : ℕ

abbrev pub default_params : Params
default_params = record { memory_kib = 65536; time = 3; threads = 4 }

abbrev pub key_len : ℕ
key_len = 32

-- argon2.Version
abbrev pub argon2_version : ℕ
argon2_version = 19

pub record Kdf (Bytes : Type 0) : Type 0 where
  -- []byte(s), len(b)
  pub text_bytes : String → Bytes
  pub len : Bytes → ℕ
  -- argon2.IDKey
  pub id_key : Bytes → Bytes → Params → ℕ → Bytes
  -- base64.RawStdEncoding
  pub encode : Bytes → String
  pub decode : String → Option Bytes
  -- subtle.ConstantTimeCompare(a, b) == 1
  pub equal : Bytes → Bytes → Bool
  -- %d, and fmt.Sscanf with "v=%d" and "m=%d,t=%d,p=%d"
  pub decimal : ℕ → String
  pub scan_version : String → Option ℤ
  pub scan_params : String → Option Params

abbrev pub dollar : ℕ
dollar = 36

module _ {Bytes : Type 0} (k : Kdf Bytes) where
  abbrev pub params_text : Params → String
  params_text p =
      "m=" ++ k.decimal p.memory_kib ++ ",t=" ++ k.decimal p.time ++ ",p=" ++ k.decimal p.threads

  -- The text that Sprintf writes
  abbrev pub phc : Params → Bytes → Bytes → String
  phc p salt key =
      "$"
      ++ "argon2id"
      ++ "$"
      ++ ("v=" ++ k.decimal argon2_version)
      ++ "$"
      ++ params_text p
      ++ "$"
      ++ k.encode salt
      ++ "$"
      ++ k.encode key

  -- The salt is what rand.Read yields, or nothing if it fails.
  unfoldable pub hash_password : Option Bytes → String → Result AuthError String
  hash_password salt plaintext =
      if ltb (byte_length plaintext) 10 then err password_short else elim salt [
        | none ↦ err random_failed
        | some bytes ↦ ok (
            phc default_params bytes
              (k.id_key (k.text_bytes plaintext) bytes default_params key_len))
      ]

  abbrev pub compare_keys : String → Params → Option Bytes → Option Bytes → Result AuthError Bool
  compare_keys plaintext p none want = err hash_format
  compare_keys plaintext p (some salt) none = err hash_format
  compare_keys plaintext p (some salt) (some want) =
      ok (k.equal want (k.id_key (k.text_bytes plaintext) salt p (k.len want % 4294967296)))

  abbrev pub check_params :
      String → Option ℤ → Option Params → String → String → Result AuthError Bool
  check_params plaintext none p salt hash = err hash_format
  check_params plaintext (some version) none salt hash = err hash_format
  check_params plaintext (some version) (some p) salt hash =
      compare_keys plaintext p (k.decode salt) (k.decode hash)

  pub verify_parts : String → List String → Result AuthError Bool
  verify_parts plaintext (first ∷ name ∷ version ∷ params ∷ salt ∷ hash ∷ []) =
      if str_eq name "argon2id"
      then check_params plaintext (k.scan_version version) (k.scan_params params) salt hash
      else err hash_format
  verify_parts plaintext _ = err hash_format

  unfoldable pub verify_password : String → String → Result AuthError Bool
  unfolding verify_parts
  verify_password plaintext encoded = verify_parts plaintext (split dollar encoded)

-- What the libraries promise of the values that HashPassword writes.
pub record IsKdf {Bytes : Type 0} (k : Kdf Bytes) : Type 0 where
  pub len_key : (text salt : Bytes) → k.len (k.id_key text salt default_params key_len) ≡ key_len
  pub decodes : (b : Bytes) → k.decode (k.encode b) ≡ some b
  pub encode_plain : (b : Bytes) → lacks dollar (k.encode b) ≡ true
  pub scans_version : k.scan_version ("v=" ++ k.decimal argon2_version) ≡ some (pos argon2_version)
  pub scans_params : k.scan_params (params_text k default_params) ≡ some default_params
  pub version_plain : lacks dollar ("v=" ++ k.decimal argon2_version) ≡ true
  pub params_plain : lacks dollar (params_text k default_params) ≡ true
