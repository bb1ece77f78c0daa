-- ===== src/Gateway.antt =====
-- services/gateway/internal/gateway.go: the authentication, rate limit and routing of a request.
-- Headers are a map under their canonical names; TLS, request ids and the proxy itself are I/O.
pub mod Limiter
pub mod Main
pub mod Routes
pub mod Serving
pub mod Tests
use pokecatch.Prelude.{
  ℕ, String, Bool, true, false, not, Option, none, some, List, [], ◌∷◌, ◌||◌, str_eq, if◌then◌else◌,
}
use pokecatch.Prelude.Dict.{Dict, get, put}
use pokecatch.Prelude.Text.{has_prefix, split, trim_space, strip_prefix, before_last}

pub record Route : Type 0 where
  pub prefix : String
  pub upstream : String

-- Router.routes, as NewRouter fills it.
abbrev pub new_router : List Route
new_router =
    record { prefix = "/v1/auth"; upstream = "http://auth:8080" }
    ∷ record { prefix = "/v1/profile"; upstream = "http://profile:8081" }
    ∷ record { prefix = "/v1/creatures"; upstream = "http://profile:8081" }
    ∷ record { prefix = "/v1/team"; upstream = "http://profile:8081" }
    ∷ record { prefix = "/v1/matchmaking"; upstream = "http://matchmaking:8083" }
    ∷ record { prefix = "/v1/trades"; upstream = "http://profile:8081" }
    ∷ record { prefix = "/v1/leaderboard"; upstream = "http://leaderboard:8084" }
    ∷ []

-- Router.upstream, over the routes in the order of the range.
unfoldable pub upstream : List Route → String → Option String
upstream [] path = none
upstream (r ∷ rs) path = if has_prefix path r.prefix then some r.upstream else upstream rs path

abbrev pub public_prefixes : List String
public_prefixes = "/v1/auth" ∷ "/healthz" ∷ "/readyz" ∷ []

abbrev pub has_some_prefix : List String → String → Bool
has_some_prefix [] path = false
has_some_prefix (p ∷ ps) path = has_prefix path p || has_some_prefix ps path

unfoldable pub is_public : String → Bool
is_public path = has_some_prefix public_prefixes path

pub record Request : Type 0 where
  pub path : String
  pub headers : Dict String
  pub remote_addr : String

abbrev or_empty : Option String → String
or_empty none = ""
or_empty (some s) = s

-- r.Header.Get
abbrev pub header : Request → String → String
header r name = or_empty (get r.headers name)

unfoldable pub bearer : String → String
bearer h = elim (strip_prefix h "Bearer ") [ none ↦ "" | some rest ↦ trim_space rest ]

abbrev first : List String → String
first [] = ""
first (s ∷ ss) = s

-- The host of "host:port"; a colon in front is kept.
abbrev host_of : String → Option String → String
host_of addr none = addr
host_of addr (some host) = if str_eq host "" then addr else host

unfoldable pub client_ip : Request → String
client_ip r =
    let forwarded = header r "X-Forwarded-For" in
    if str_eq forwarded ""
    then host_of r.remote_addr (before_last 58 r.remote_addr)
    else trim_space (first (split 44 forwarded))

pub data Response : Type 0 where
  unauthorized rate_limited not_found : Response
  proxied : String → Request → Response

abbrev with_account : Request → String → Request
with_account r account_id = record r { headers = put r.headers "X-Account-Id" account_id }

-- The verifier, and the limiter over its state, are interfaces in the source as well.
module _ {L : Type 0} (verify : String → Option String) (allow : L → String → String → Bool × L)
    (routes : List Route) where
  -- Step 1, with the account id that it finds ("" on a public path).
  abbrev pub verified : Request → Option String → Option (Request × String)
  verified r none = none
  verified r (some account_id) = some (with_account r account_id, account_id)

  pub authenticate : Request → Option (Request × String)
  authenticate r =
      if is_public r.path
      then some (r, "")
      else let tok = bearer (header r "Authorization") in
        if str_eq tok "" then none else verified r (verify tok)

  abbrev pub limit_key : Request → String → String
  limit_key r account_id = if str_eq account_id "" then client_ip r else account_id

  -- Step 3
  abbrev pub routed : Request → Option String → Response
  routed r none = not_found
  routed r (some up) = proxied up r

  -- Steps 2 and 3
  pub admit : L → Option (Request × String) → Response × L
  admit l none = (unauthorized, l)
  admit l (some (r, account_id)) =
      let asked = allow l (limit_key r account_id) r.path in
      if asked.0 then (routed r (upstream routes r.path), asked.1) else (rate_limited, asked.1)

  unfoldable pub serve_http : L → Request → Response × L
  unfolding authenticate admit
  serve_http l r = admit l (authenticate r)
