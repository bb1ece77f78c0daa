-- ===== src/Token/RoundTrip.antt =====
-- What VerifyAccessToken of pkg/token/jwt.go accepts.
use pokecatch.Prelude.{
  ◌≡◌, refl, sym, ◌∙◌, ap, String, false, Option, none, some, List, [], ◌∷◌, arith, Bool-cases, inl,
  inr, if◌then◌else◌,
}
use pokecatch.Prelude.Int.{ℤ, ◌+ℤ◌, leb_ℤ}
use pokecatch.Prelude.Outcome.{Result, ok, err}
use pokecatch.Prelude.Text.{◌++◌, split, split-append, split-lacks, append_assoc}
use pokecatch.Token.{
  check_expiry, check_payload, check_signature, Claims, TokenError, expired, Codec, IsCodec, dot,
  dot_code, unix, sign, signed, claims_at, sign_access_token, verify_parts, verify_access_token,
}

ok_inj : {k m : Claims} → Path (Result TokenError Claims) (ok k) (ok m) → k ≡ m
ok_inj e = cc e

module _ {Bytes : Type 0} (c : Codec Bytes) (secret : Bytes) where
  split-signed :
      (json : Bytes)
      → IsCodec c
      → split dot_code (signed c secret (c.header ++ "." ++ c.encode json))
        ≡ c.header
          ∷ c.encode json
          ∷ c.encode (sign c secret (c.header ++ "." ++ c.encode json))
          ∷ []
  split-signed json law =
      let payload = c.encode json in
      let sig = c.encode (sign c secret (c.header ++ "." ++ payload)) in
      ap (split dot_code) (
        append_assoc c.header ("." ++ payload) ("." ++ sig)
        ∙ ap (λ t. c.header ++ t) (append_assoc "." payload ("." ++ sig)))
      ∙ split-append dot c.header (payload ++ "." ++ sig) law.header_plain
      ∙ ap (◌∷◌ c.header) (
          split-append dot payload sig (law.encode_plain json)
          ∙ ap (◌∷◌ payload) (
              split-lacks dot_code sig
                (law.encode_plain (sign c secret (c.header ++ "." ++ payload)))))

  -- For a codec with the laws of IsCodec and claims that marshal, SignAccessToken yields a token,
  -- and VerifyAccessToken at any later or earlier time yields the claims that were signed, or
  -- ErrTokenExpired exactly if the second of their expiry has come.
  pub verify-sign :
      (now later : ℤ) (account_id : String) (ttl ver : ℤ) (json : Bytes)
      → IsCodec c
      → c.marshal (claims_at c secret now account_id ttl ver) ≡ some json
      → (tok : String) × (sign_access_token c secret now account_id ttl ver ≡ some tok)
        × (verify_access_token c secret later tok ≡ (
            if leb_ℤ (unix (now +ℤ ttl)) (unix later)
            then err expired
            else ok (claims_at c secret now account_id ttl ver)))
  unfolding sign_access_token verify_access_token verify_parts
  verify-sign now later account_id ttl ver json law e =
      let tok = signed c secret (c.header ++ "." ++ c.encode json) in
      let parts = split-signed json law in
      let sig = sign c secret (c.header ++ "." ++ c.encode json) in
      let same = law.equal_refl sig in
      let back = law.marshals (claims_at c secret now account_id ttl ver) json e in
      (
        tok,
        ground (arith, e),
        rw (verify_access_token, parts, law.decodes sig, same, law.decodes json, back)
            (ground arith),
      )

  -- The parts of a token whose signature, payload and expiry are all good.
  abbrev pub AreGood : ℤ → Claims → String → String → String → Type 0
  AreGood now m head payload sig =
      (c.decode sig ≡ some (sign c secret (head ++ "." ++ payload)))
      × ((json : Bytes) × (c.decode payload ≡ some json) × (c.unmarshal json ≡ some m))
      × (leb_ℤ m.exp (unix now) ≡ false)

  ok_expiry :
      (now : ℤ) (m k : Claims)
      → leb_ℤ k.exp (unix now) ≡ false
      → Path (Result TokenError Claims) (ok k) (ok m)
      → (some k ≡ some m) × (leb_ℤ m.exp (unix now) ≡ false)
  ok_expiry now m k b e =
      let same = ok_inj e in (ap some same, ap (λ x. leb_ℤ x.exp (unix now)) (sym same) ∙ b)

  check_expiry_ok :
      (now : ℤ) (m : Claims) (read : Option Claims)
      → check_expiry c secret now read ≡ ok m
      → (read ≡ some m) × (leb_ℤ m.exp (unix now) ≡ false)
  check_expiry_ok now m none h = absurd (cc h)
  check_expiry_ok now m (some k) h = elim (Bool-cases (leb_ℤ k.exp (unix now))) [
    | inl b ↦ absurd (ground (arith, h, b))
    | inr b ↦ ok_expiry now m k b (ground (arith, h, b))
  ]

  check_payload_ok :
      (now : ℤ) (m : Claims) (payload : Option Bytes)
      → check_payload c secret now payload ≡ ok m
      → ((json : Bytes) × (payload ≡ some json) × (c.unmarshal json ≡ some m))
        × (leb_ℤ m.exp (unix now) ≡ false)
  check_payload_ok now m none h = absurd (cc h)
  check_payload_ok now m (some json) h =
      let (e, b) = check_expiry_ok now m (c.unmarshal json) h in ((json, refl, e), b)

  check_signature_ok :
      (now : ℤ) (m : Claims) (head payload : String) (got : Option Bytes)
      → IsCodec c
      → check_signature c secret now head payload got ≡ ok m
      → (got ≡ some (sign c secret (head ++ "." ++ payload)))
        × ((json : Bytes) × (c.decode payload ≡ some json) × (c.unmarshal json ≡ some m))
        × (leb_ℤ m.exp (unix now) ≡ false)
  check_signature_ok now m head payload none law h = absurd (cc h)
  check_signature_ok now m head payload (some got) law h =
      elim (Bool-cases (c.equal (sign c secret (head ++ "." ++ payload)) got)) [
        | inl b ↦
            let (read, fresh) = check_payload_ok now m (c.decode payload) (ground (arith, h, b)) in
            (ap some (sym (law.equal_sound _ got b)), read, fresh)
        | inr b ↦ absurd (ground (arith, h, b))
      ]

  verify_parts_ok :
      (now : ℤ) (m : Claims) (parts : List String)
      → IsCodec c
      → verify_parts c secret now parts ≡ ok m
      → (head payload sig : String) × (parts ≡ head ∷ payload ∷ sig ∷ [])
        × AreGood now m head payload sig
  unfolding verify_parts
  verify_parts_ok now m [] law h = absurd (cc h)
  verify_parts_ok now m (a ∷ []) law h = absurd (cc h)
  verify_parts_ok now m (a ∷ b ∷ []) law h = absurd (cc h)
  verify_parts_ok now m (a ∷ b ∷ d ∷ []) law h =
      (a, b, d, refl, check_signature_ok now m a b (c.decode d) law h)
  verify_parts_ok now m (a ∷ b ∷ d ∷ x ∷ xs) law h = absurd (cc h)

  -- For a codec with the laws of IsCodec, a token that VerifyAccessToken accepts has exactly
  -- three parts, of which the last decodes to the MAC of the first two under the secret, the
  -- second decodes to the claims that are returned, and these expire after the current second.
  pub verify_ok :
      (now : ℤ) (tok : String) (m : Claims)
      → IsCodec c
      → verify_access_token c secret now tok ≡ ok m
      → (head payload sig : String) × (split dot_code tok ≡ head ∷ payload ∷ sig ∷ [])
        × AreGood now m head payload sig
  unfolding verify_access_token
  verify_ok now tok m law h = verify_parts_ok now m (split dot_code tok) law h
