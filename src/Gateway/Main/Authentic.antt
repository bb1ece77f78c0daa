-- ===== src/Gateway/Main/Authentic.antt =====
-- What a request that the gateway of services/gateway/cmd/main.go proxies was signed with.
use pokecatch.Prelude.{String, ◌≡◌, refl, sym, ◌∙◌, ap, ◌⊎◌, inl, inr, some, List, ◌∷◌, []}
use pokecatch.Prelude.Int.{ℤ}
use pokecatch.Prelude.Outcome.{Result, ok, err}
use pokecatch.Prelude.Dict.{get}
use pokecatch.Prelude.Text.{split}
use pokecatch.Token.{Claims, TokenError, Codec, IsCodec, dot_code, verify_access_token}
use pokecatch.Token.RoundTrip.{AreGood, verify_ok}
use pokecatch.Gateway.{Route, Request, proxied, bearer, header}
use pokecatch.Gateway.Routes.{IsRange, auth_upstream}
use pokecatch.Gateway.Serving.{proxied_IsVerified}
use pokecatch.Gateway.Limiter.{MemoryLimiter, allow}
use pokecatch.Gateway.Main.{subject, verifier, serve}

subject-some :
    (answer : Result TokenError Claims) (account_id : String)
    → subject answer ≡ some account_id
    → (m : Claims) × (answer ≡ ok m) × (m.sub ≡ account_id)
subject-some (ok m) account_id h = (m, refl, cc h)
subject-some (err e) account_id h = absurd (cc h)

module _ {Bytes : Type 0} (c : Codec Bytes) (secret : Bytes) where
  -- The request carries a signed and fresh token, and goes out under the subject of its claims.
  abbrev pub IsAuthentic : ℤ → Request → Request → Type 0
  IsAuthentic now r out =
      (m : Claims) × (get out.headers "X-Account-Id" ≡ some m.sub)
      × ((head payload sig : String) × (split dot_code (bearer (header r "Authorization"))
            ≡ head ∷ payload ∷ sig ∷ [])
          × AreGood c secret now m head payload sig)

  -- For a codec with the laws of IsCodec and any order of the range over the routes, a request
  -- that the gateway proxies goes to the auth service, or its bearer token is of three parts with
  -- a good signature under the secret, claims that read and an expiry still to come, and it goes
  -- out with the subject of those claims as its X-Account-Id, whatever header the client sent.
  pub served_IsAuthentic :
      (routes : List Route) (now later : ℤ) (l : MemoryLimiter) (r out : Request) (up : String)
      → IsCodec c
      → IsRange routes
      → (serve c secret routes now later l r).0 ≡ proxied up out
      → (up ≡ auth_upstream) ⊎ IsAuthentic now r out
  unfolding serve
  served_IsAuthentic routes now later l r out up law range h =
      elim (proxied_IsVerified (verifier c secret now) (allow later) routes l r out up range h) [
        | inl a ↦ inl a
        | inr (account_id, e, header_) ↦
            let tok = bearer (header r "Authorization") in
            let (m, good, same) =
              subject-some (verify_access_token c secret now tok) account_id e in
            inr (m, header_ ∙ ap some (sym same), verify_ok c secret now tok m law good)
      ]
