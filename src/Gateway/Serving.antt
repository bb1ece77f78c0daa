-- ===== src/Gateway/Serving.antt =====
-- What the gateway of services/gateway/internal/gateway.go lets through to the upstreams, alone and
-- with the verifier that services/gateway/cmd/main.go plugs in.
use pokecatch.Prelude.{
  String, ◌≡◌, refl, sym, ◌∙◌, ap, Bool, true, false, ◌⊎◌, inl, inr, Option, none, some, List,
  str_eq, arith, Bool-cases,
}
use pokecatch.Prelude.Dict.{get, get-put_self}
use pokecatch.Gateway.{
  Route, Request, proxied, upstream, is_public, bearer, header, with_account, authenticate,
  verified, routed, admit, limit_key, serve_http,
}
use pokecatch.Gateway.Routes.{IsRange, auth_upstream, public_upstream}

same_request : (p q : Request × String) → some p ≡ some q → p.0 ≡ q.0
same_request p q h = cc h

module _ {L : Type 0} (verify : String → Option String) (allow : L → String → String → Bool × L)
    (routes : List Route) where
  -- The request was let through as an account that its token was verified for.
  abbrev pub IsVerified : Request → Request → Type 0
  IsVerified r out =
      (account_id : String) × (verify (bearer (header r "Authorization")) ≡ some account_id)
      × (get out.headers "X-Account-Id" ≡ some account_id)

  routed_proxied :
      (r out : Request) (found : Option String) (up : String)
      → routed verify allow routes r found ≡ proxied up out
      → (r ≡ out) × (found ≡ some up)
  routed_proxied r out none up h = absurd (cc h)
  routed_proxied r out (some u) up h = (cc h, cc h)

  admit_proxied :
      (l : L) (found : Option (Request × String)) (up : String) (out : Request)
      → (admit verify allow routes l found).0 ≡ proxied up out
      → (account_id : String) × (found ≡ some (out, account_id))
        × (upstream routes out.path ≡ some up)
  unfolding admit
  admit_proxied l none up out h = absurd (cc h)
  admit_proxied l (some (r, account_id)) up out h =
      elim (Bool-cases (allow l (limit_key verify allow routes r account_id) r.path).0) [
        | inl e ↦
            let (same, found) =
              routed_proxied r out (upstream routes r.path) up (ground (arith, h, e)) in
            (
              account_id,
              ap (λ z. some (z, account_id)) same,
              ap (λ z. upstream routes z.path) (sym same) ∙ found,
            )
        | inr e ↦ absurd (ground (arith, h, e))
      ]

  verified-IsVerified :
      (r out : Request) (account_id : String) (answer : Option String)
      → verify (bearer (header r "Authorization")) ≡ answer
      → verified verify allow routes r answer ≡ some (out, account_id)
      → (out.path ≡ r.path) × IsVerified r out
  verified-IsVerified r out account_id none e h = absurd (cc h)
  verified-IsVerified r out account_id (some a) e h =
      let same = sym (same_request (with_account r a, a) (out, account_id) h) in
      (
        ap (λ z. z.path) same,
        (
          a,
          e,
          ap (λ z. get z.headers "X-Account-Id") same ∙ get-put_self r.headers "X-Account-Id" a,
        ),
      )

  authenticate_private :
      (r out : Request) (account_id : String)
      → is_public r.path ≡ false
      → authenticate verify allow routes r ≡ some (out, account_id)
      → (out.path ≡ r.path) × IsVerified r out
  unfolding authenticate
  authenticate_private r out account_id private_ h =
      elim (Bool-cases (str_eq (bearer (header r "Authorization")) "")) [
        | inl e ↦ absurd (ground (arith, private_, h, e))
        | inr e ↦
            verified-IsVerified r out account_id (verify (bearer (header r "Authorization"))) refl
              (ground (arith, private_, h, e))
      ]

  authenticate_public :
      (r out : Request) (account_id : String)
      → is_public r.path ≡ true
      → authenticate verify allow routes r ≡ some (out, account_id)
      → r ≡ out
  unfolding authenticate
  authenticate_public r out account_id open_path h = ground (arith, open_path, h)

  -- x
  pub proxied_IsVerified :
      (l : L) (r out : Request) (up : String)
      → IsRange routes
      → (serve_http verify allow routes l r).0 ≡ proxied up out
      → (up ≡ auth_upstream) ⊎ IsVerified r out
  unfolding serve_http
  proxied_IsVerified l r out up range h =
      let (account_id, e, found) = admit_proxied l (authenticate verify allow routes r) up out h in
      elim (Bool-cases (is_public r.path)) [
        | inr p ↦ inr (authenticate_private r out account_id p e).1
        | inl p ↦ elim (public_upstream routes out.path up range found) [
          | inl a ↦ inl a
          | inr a ↦ absurd (
              ground (
                arith,
                p,
                a,
                authenticate_public r out account_id p e,
                ap (λ z. is_public z.path) (authenticate_public r out account_id p e),
              ))
        ]
      ]
