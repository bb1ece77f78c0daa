-- ===== src/Profile/Save.antt =====
-- services/profile/internal/save.go: offline saves, their checksums and their migrations. The
-- float64 type, the values of the settings, encoding/json and SHA-256 are parameters.
pub mod RoundTrip
pub mod Tests
use pokecatch.Engine.Battle.Digest.{to_u64}
use pokecatch.Prelude.{
  ℕ, zero, suc, ◌%◌, ◌/◌, [], ◌∷◌, String, Bool, true, false, not, Option, none, some, List, ◌≡◌,
  str_eq, if◌then◌else◌,
}
use pokecatch.Prelude.Int.{ℤ, pos, negsuc, ltb_ℤ, eq_ℤ}
use pokecatch.Prelude.Outcome.{Result, ok, err, ◌>>=◌}
use pokecatch.Prelude.Dict.{Dict, empty}

abbrev pub current_save_version : ℤ
current_save_version = pos 3

-- A map that may be nil is an `Option`.
pub record SaveBlob (Float Any : Type 0) : Type 0 where
  pub version : ℤ
  pub account_id : String
  pub region : String
  pub pos_x : Float
  pub pos_y : Float
  pub story_flags : Option (Dict ℤ)
  pub settings : Option (Dict Any)
  pub playtime_s : ℤ

pub record Envelope (Bytes : Type 0) : Type 0 where
  pub checksum : String
  pub payload : Bytes

-- The errors of encoding/json, by the step that wraps them, and the three of the package
pub data SaveError : Type 0 where
  unwritten_blob unwritten_envelope bad_envelope bad_version bad_blob : SaveError
  corrupt_save future_save empty_payload : SaveError

-- encoding/json at the types of this file, and fmt.Sprintf("%x") of SHA-256 over what
-- is written to it, here some bytes and a slice.
pub record Json (Float Any Bytes : Type 0) : Type 0 where
  pub marshal_blob : SaveBlob Float Any → Option Bytes
  pub unmarshal_blob : Bytes → Option (SaveBlob Float Any)
  pub peek_version : Bytes → Option ℤ
  pub marshal_envelope : Envelope Bytes → Option Bytes
  pub unmarshal_envelope : Bytes → Option (Envelope Bytes)
  pub is_empty : Bytes → Bool
  pub sha256_hex : List ℕ → Bytes → String

-- What encoding/json promises of the texts that it writes: a blob's is not empty and a struct with
-- the version alone reads the blob's version in it, and an envelope reads back. Nothing is
-- promised of the blob that is read: a number of the settings comes back as a float64.
pub record IsJson {Float Any Bytes : Type 0} (j : Json Float Any Bytes) : Type 0 where
  pub version_written :
      (b : SaveBlob Float Any) (payload : Bytes)
      → j.marshal_blob b ≡ some payload
      → j.peek_version payload ≡ some b.version
  pub blob_filled :
      (b : SaveBlob Float Any) (payload : Bytes)
      → j.marshal_blob b ≡ some payload
      → j.is_empty payload ≡ false
  pub version_alone :
      (payload : Bytes) (b : SaveBlob Float Any)
      → j.unmarshal_blob payload ≡ some b
      → j.peek_version payload ≡ some b.version
  pub envelope_back :
      (b : SaveBlob Float Any) (checksum : String) (payload raw : Bytes)
      → j.marshal_blob b ≡ some payload
      → j.marshal_envelope (record { checksum = checksum; payload = payload }) ≡ some raw
      → j.unmarshal_envelope raw ≡ some (record { checksum = checksum; payload = payload })

-- binary.LittleEndian.PutUint64, for the lowest `n` bytes
unfoldable pub le_bytes : ℕ → ℕ → List ℕ
le_bytes zero v = []
le_bytes (suc n) v = v % 256 ∷ le_bytes n (v / 256)

module _ {Float Any Bytes : Type 0} (j : Json Float Any Bytes) where
  abbrev pub or_error : {A : Type 0} → SaveError → Option A → Result SaveError A
  or_error e none = err e
  or_error e (some a) = ok a

  abbrev pub checksum : ℤ → Bytes → String
  checksum version payload = j.sha256_hex (le_bytes 8 (to_u64 version)) payload

  abbrev pub sealed : Bytes → Envelope Bytes
  sealed payload = record { checksum = checksum current_save_version payload; payload = payload }

  -- Encode
  unfoldable pub encode : SaveBlob Float Any → Result SaveError Bytes
  encode blob = do
    payload ←
        or_error unwritten_blob (j.marshal_blob (record blob { version = current_save_version }))
    or_error unwritten_envelope (j.marshal_envelope (sealed payload))

  abbrev pub or_map : {V : Type 0} → Option (Dict V) → Option (Dict V)
  or_map none = some empty
  or_map (some d) = some d

  -- The cases of migrateSave, from the last on: each falls through to the next.
  abbrev pub to_current : SaveBlob Float Any → SaveBlob Float Any
  to_current b = record b { version = current_save_version }

  abbrev pub from_v2 : SaveBlob Float Any → SaveBlob Float Any
  from_v2 b = to_current (record b { settings = or_map b.settings })

  abbrev pub from_v1 : SaveBlob Float Any → SaveBlob Float Any
  from_v1 b = from_v2 (record b { story_flags = or_map b.story_flags })

  unfoldable pub migrate_save : SaveBlob Float Any → SaveBlob Float Any
  migrate_save b =
      if eq_ℤ b.version (pos 1)
      then from_v1 b
      else if eq_ℤ b.version (pos 2)
      then from_v2 b
      else to_current b

  -- The tests on the peeked version, and the rest
  abbrev pub check_version : Envelope Bytes → ℤ → Result SaveError (SaveBlob Float Any)
  check_version env version =
      if not (str_eq (checksum version env.payload) env.checksum)
      then err corrupt_save
      else if ltb_ℤ current_save_version version
      then err future_save
      else do blob ← or_error bad_blob (j.unmarshal_blob env.payload); ok (migrate_save blob)

  abbrev pub open_envelope : Envelope Bytes → Result SaveError (SaveBlob Float Any)
  open_envelope env =
      if j.is_empty env.payload
      then err empty_payload
      else do version ← or_error bad_version (j.peek_version env.payload); check_version env version

  -- Decode
  unfoldable pub decode : Bytes → Result SaveError (SaveBlob Float Any)
  decode raw = do env ← or_error bad_envelope (j.unmarshal_envelope raw); open_envelope env
