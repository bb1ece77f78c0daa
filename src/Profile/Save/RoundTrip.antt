-- ===== src/Profile/Save/RoundTrip.antt =====
-- What Decode of services/profile/internal/save.go reads of a save, its own and an older one.
use pokecatch.Prelude.{
  ◌≡◌, refl, sym, ◌∙◌, ap, Bool, false, ◌||◌, inl, inr, Option, some, arith, str_eq, str_eq_refl,
  eq_iff, Bool-cases, Option-cases, if◌then◌else◌,
}
use pokecatch.Prelude.Int.{ℤ, pos, ltb_ℤ, eq_ℤ}
use pokecatch.Prelude.Outcome.{Result, ok, ok_inj}
use pokecatch.Prelude.Dict.{Dict}
use pokecatch.Profile.Save.{
  SaveBlob, Envelope, SaveError, current_save_version, Json, IsJson, bad_blob, or_error, checksum,
  sealed, encode, or_map, to_current, migrate_save, check_version, open_envelope, decode,
}

module _ {Float Any Bytes : Type 0} (j : Json Float Any Bytes) where
  -- A text with the current version, under its own checksum: all tests pass.
  opens_sealed :
      (b : SaveBlob Float Any) (payload : Bytes)
      → IsJson j
      → b.version ≡ current_save_version
      → j.marshal_blob b ≡ some payload
      → open_envelope j (sealed j payload) ≡ or_error j bad_blob (j.unmarshal_blob payload)
  unfolding migrate_save
  opens_sealed b payload law v e =
      let peek = law.version_written b payload e ∙ ap some v in
      let sum = str_eq_refl (checksum j current_save_version payload) in
      elim (Option-cases (j.unmarshal_blob payload)) [
        | inl d ↦ rw (law.blob_filled b payload e, peek, sum, d) refl
        | inr (back, d) ↦
            let same : back.version ≡ pos 3 = cc (law.version_alone payload back d, peek) in
            rw (law.blob_filled b payload e, peek, sum, d, same) refl
      ]

  -- For a JSON with the laws of IsJson, whatever it reads back of the settings, Decode of what
  -- Encode wrote of a blob is exactly what encoding/json reads of the payload that it wrote of
  -- the blob with the current version, or its error: the version, the checksum and the emptiness
  -- are accepted, and no migration changes the blob.
  pub decode-encode :
      (blob : SaveBlob Float Any) (raw : Bytes)
      → IsJson j
      → encode j blob ≡ ok raw
      → (payload : Bytes) × (j.marshal_blob (record blob { version = current_save_version })
          ≡ some payload)
        × (decode j raw ≡ or_error j bad_blob (j.unmarshal_blob payload))
  unfolding encode decode
  decode-encode blob raw law h =
      let b = to_current j blob in
      elim (Option-cases (j.marshal_blob b)) [
        | inl e ↦ absurd (ground (arith, h, e))
        | inr (payload, e) ↦ elim (Option-cases (j.marshal_envelope (sealed j payload))) [
          | inl d ↦ absurd (ground (arith, h, e, d))
          | inr (bytes, d) ↦
              let same : bytes ≡ raw = ground (arith, h, e, d) in
              let read =
                law.envelope_back b (checksum j current_save_version payload) payload bytes e d in
              (payload, e, rw (← same, read) (opens_sealed b payload law refl e))
        ]
      ]

  abbrev filled : {V : Type 0} → Bool → Option (Dict V) → Option (Dict V)
  filled b d = if b then or_map j d else d

  -- The blob of an older version, brought forward.
  abbrev pub forward : SaveBlob Float Any → SaveBlob Float Any
  forward b = record b {
    version = current_save_version;
    story_flags = filled (eq_ℤ b.version (pos 1)) b.story_flags;
    settings = filled (eq_ℤ b.version (pos 1) || eq_ℤ b.version (pos 2)) b.settings;
  }

  migrate_forward : (b : SaveBlob Float Any) → migrate_save j b ≡ forward b
  unfolding migrate_save
  migrate_forward b = ground arith

  -- The save that a text holds: its checksum is right, and its version is not beyond the current one.
  abbrev pub IsSealed : Bytes → SaveBlob Float Any → Type 0
  IsSealed raw old =
      (env : Envelope Bytes) × (j.unmarshal_envelope raw ≡ some env)
      × (j.unmarshal_blob env.payload ≡ some old)
      × (checksum j old.version env.payload ≡ env.checksum)
      × (ltb_ℤ current_save_version old.version ≡ false)

  check_version_ok :
      (env : Envelope Bytes) (v : ℤ) (b : SaveBlob Float Any)
      → check_version j env v ≡ ok b
      → (old : SaveBlob Float Any) × (j.unmarshal_blob env.payload ≡ some old)
        × (checksum j v env.payload ≡ env.checksum)
        × (ltb_ℤ current_save_version v ≡ false)
        × (b ≡ forward old)
  check_version_ok env v b h = elim (Bool-cases (str_eq (checksum j v env.payload) env.checksum)) [
    | inr s ↦ absurd (ground (arith, h, s))
    | inl s ↦ elim (Bool-cases (ltb_ℤ current_save_version v)) [
      | inl f ↦ absurd (ground (arith, h, s, f))
      | inr f ↦ elim (Option-cases (j.unmarshal_blob env.payload)) [
        | inl e ↦ absurd (ground (arith, h, s, f, e))
        | inr (old, e) ↦
            let same : Path (Result SaveError (SaveBlob Float Any)) (ok (migrate_save j old))
                (ok b) =
              ground (arith, h, s, f, e) in
            (
              old,
              e,
              (eq_iff (checksum j v env.payload) env.checksum).0 s,
              f,
              sym (ok_inj same) ∙ migrate_forward old,
            )
      ]
    ]
  ]

  -- For a JSON with the laws of IsJson, a text that Decode accepts is an envelope whose checksum
  -- is that of its payload and version and whose version is at most the current one, and the
  -- result is its blob with the current version, with an empty map for nil story flags of version
  -- 1 and for nil settings of versions 1 and 2, and with nothing else changed.
  pub decode_ok :
      (raw : Bytes) (b : SaveBlob Float Any)
      → IsJson j
      → decode j raw ≡ ok b
      → (old : SaveBlob Float Any) × IsSealed raw old × (b ≡ forward old)
  unfolding decode
  decode_ok raw b law h = elim (Option-cases (j.unmarshal_envelope raw)) [
    | inl e ↦ absurd (ground (arith, h, e))
    | inr (env, e) ↦ elim (Bool-cases (j.is_empty env.payload)) [
      | inl d ↦ absurd (ground (arith, h, e, d))
      | inr d ↦ elim (Option-cases (j.peek_version env.payload)) [
        | inl p ↦ absurd (ground (arith, h, e, d, p))
        | inr (v, p) ↦
            let (old, q, sum, f, same) = check_version_ok env v b (ground (arith, h, e, d, p)) in
            let version : v ≡ old.version = cc (p, law.version_alone env.payload old q) in
            (
              old,
              (
                env,
                e,
                q,
                ap (λ z. checksum j z env.payload) (sym version) ∙ sum,
                ap (ltb_ℤ current_save_version) (sym version) ∙ f,
              ),
              same,
            )
      ]
    ]
  ]
