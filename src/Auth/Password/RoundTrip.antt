-- ===== src/Auth/Password/RoundTrip.antt =====
-- That VerifyPassword of services/auth/internal/password.go reads what HashPassword writes.
use Prim.Native.Char.{Char}
use Prim.Native.String.append
use pokecatch.Prelude.{
  String, ◌≡◌, refl, sym, ◌∙◌, ap, true, some, ◌∷◌, [], arith, Bool-cases, inl, inr, ltb,
}
use pokecatch.Prelude.Outcome.{Result, ok, ok_inj}
use pokecatch.Prelude.Text.{◌++◌, split, lacks, split-append, split-lacks, byte_length}
use pokecatch.Auth.Store.{AuthError}
use pokecatch.Auth.Password.{
  default_params, key_len, argon2_version, Kdf, IsKdf, dollar, params_text, phc, hash_password,
  verify_parts, verify_password,
}

abbrev sign_char : Char
sign_char = "$"

plain_empty : lacks dollar "" ≡ true
unfolding lacks
plain_empty = refl

plain_name : lacks dollar "argon2id" ≡ true
unfolding lacks
plain_name = refl

module _ {Bytes : Type 0} (k : Kdf Bytes) where
  abbrev version_text : String
  version_text = "v=" ++ k.decimal argon2_version

  split-phc :
      (salt key : Bytes)
      → IsKdf k
      → split dollar (phc k default_params salt key)
        ≡ ""
          ∷ "argon2id"
          ∷ version_text
          ∷ params_text k default_params
          ∷ k.encode salt
          ∷ k.encode key
          ∷ []
  split-phc salt key law =
      let s = k.encode salt in
      let h = k.encode key in
      let tail =
        "argon2id"
        ++ "$"
        ++ version_text
        ++ "$"
        ++ params_text k default_params
        ++ "$"
        ++ s
        ++ "$"
        ++ h in
      ap (split dollar) (sym (append.nil ("$" ++ tail)))
      ∙ split-append sign_char "" tail plain_empty
      ∙ ap (◌∷◌ "") (
          split-append sign_char "argon2id"
            (version_text ++ "$" ++ params_text k default_params ++ "$" ++ s ++ "$" ++ h) plain_name
          ∙ ap (◌∷◌ "argon2id") (
              split-append sign_char version_text
                (params_text k default_params ++ "$" ++ s ++ "$" ++ h) (law.version_plain)
              ∙ ap (◌∷◌ version_text) (
                  split-append sign_char (params_text k default_params) (s ++ "$" ++ h)
                    (law.params_plain)
                  ∙ ap (◌∷◌ (params_text k default_params)) (
                      split-append sign_char s h (law.encode_plain salt)
                      ∙ ap (◌∷◌ s) (split-lacks dollar h (law.encode_plain key))))))

  -- The key of a password under a salt
  abbrev pub key_of : Bytes → String → Bytes
  key_of salt plaintext = k.id_key (k.text_bytes plaintext) salt default_params key_len

  verify_phc :
      (salt : Bytes) (plaintext attempt : String)
      → IsKdf k
      → verify_password k attempt (phc k default_params salt (key_of salt plaintext))
        ≡ ok (k.equal (key_of salt plaintext) (key_of salt attempt))
  unfolding verify_password verify_parts
  verify_phc salt plaintext attempt law =
      rw
        (
          split-phc salt (key_of salt plaintext) law,
          law.scans_version,
          law.scans_params,
          law.decodes salt,
          law.decodes (key_of salt plaintext),
          law.len_key (k.text_bytes plaintext) salt,
        )
        refl

  -- For a KDF with the laws of IsKdf, VerifyPassword reads every text that HashPassword yields,
  -- with the parameters, salt and key that were written to it, and answers whether the key of the
  -- attempt equals that of the password.
  pub verify_password-hash_password :
      (salt : Bytes) (plaintext attempt encoded : String)
      → IsKdf k
      → hash_password k (some salt) plaintext ≡ ok encoded
      → verify_password k attempt encoded
        ≡ ok (k.equal (key_of salt plaintext) (key_of salt attempt))
  unfolding hash_password
  verify_password-hash_password salt plaintext attempt encoded law h =
      elim (Bool-cases (ltb (byte_length plaintext) 10)) [
        | inl e ↦ absurd (ground (arith, h, e))
        | inr e ↦
            let same : Path (Result AuthError String)
                (ok (phc k default_params salt (key_of salt plaintext))) (ok encoded) =
              ground (arith, h, e) in
            ap (verify_password k attempt) (sym (ok_inj same))
            ∙ verify_phc salt plaintext attempt law
      ]
