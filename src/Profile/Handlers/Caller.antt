-- ===== src/Profile/Handlers/Caller.antt =====
-- Whom the requests act for that the gateway proxies to services/profile/internal/handlers.go.
use pokecatch.Prelude.{String, ◌≡◌, refl, ap, ◌⊎◌, inl, inr, List, ◌∷◌, []}
use pokecatch.Prelude.Int.{ℤ}
use pokecatch.Prelude.Outcome.{Result}
use pokecatch.Prelude.Text.{split}
use pokecatch.Creatures.Model.{Dex}
use pokecatch.Token.{Claims, Codec, IsCodec, dot_code}
use pokecatch.Token.RoundTrip.{AreGood}
use pokecatch.Gateway.{Route as Upstream, Request, proxied, bearer, header}
use pokecatch.Gateway.Routes.{IsRange, auth_upstream}
use pokecatch.Gateway.Limiter.{MemoryLimiter}
use pokecatch.Gateway.Main.{serve}
use pokecatch.Gateway.Main.Authentic.{served_IsAuthentic}
use pokecatch.Profile.Repo.{OwnedCreature, Error, Repo}
use pokecatch.Profile.Trade.{Manager}
use pokecatch.Profile.Handlers.{Route, Decoder, handle}

abbrev pub caller : Request → String
caller r = header r "X-Account-Id"

module _ (R : Repo)
    (list : R.State → String → String → ℤ → Result Error (List OwnedCreature × String)) {F : Type 0}
    (dex : Dex F) {B : Type 0} (json : Decoder B) where
  -- For a codec with the laws of IsCodec and any order of the range over the gateway's routes, a
  -- request that the gateway proxies to another service than auth has, for the profile handlers, the
  -- effect and the answer of its route under the subject of good claims that its bearer token was
  -- signed with.
  pub handle-caller :
      {Bytes : Type 0} (c : Codec Bytes) (secret : Bytes) (routes : List Upstream) (now later : ℤ)
      (l : MemoryLimiter) (r out : Request) (up : String)
      → IsCodec c
      → IsRange routes
      → (serve c secret routes now later l r).0 ≡ proxied up out
      → (new_id : String) (m : Manager R) (route : Route B)
      → (up ≡ auth_upstream)
        ⊎ ((claims : Claims) × (handle R list dex json new_id (caller out) m route
              ≡ handle R list dex json new_id claims.sub m route)
            × ((head payload sig : String) × (split dot_code (bearer (header r "Authorization"))
                  ≡ head ∷ payload ∷ sig ∷ [])
                × AreGood c secret now claims head payload sig))
  handle-caller c secret routes now later l r out up law range h new_id m route =
      elim (served_IsAuthentic c secret routes now later l r out up law range h) [
        | inl a ↦ inl a
        | inr (claims, id, good) ↦
            let same : caller out ≡ claims.sub = rw id refl in
            inr (claims, ap (λ who. handle R list dex json new_id who m route) same, good)
      ]
