-- ===== src/Gateway/Tests.antt =====
-- Requests to the gateway of services/gateway.
use pokecatch.Prelude.{◌≡◌, refl, ◌⊎◌, arith, List, ◌∷◌, []}
use pokecatch.Prelude.Int.{pos, ◌+ℤ◌}
use pokecatch.Prelude.Dict.{empty, put, get}
use pokecatch.Prelude.Text.{has_prefix, strip_prefix, trim_space, split}
use pokecatch.Token.{verify_access_token, unix}
use pokecatch.Token.Tests.{mac, codec, codec-IsCodec}
use pokecatch.Gateway.{Route, Request, serve_http, is_public, bearer, upstream, new_router}
use pokecatch.Gateway.Routes.{IsRange, upstream_any_order, auth_upstream}
use pokecatch.Gateway.Limiter.{new_memory_limiter, allow}
use pokecatch.Gateway.Limiter.Window.{Call, allowed_of, calls_of, min, max, window_exact}
use pokecatch.Gateway.Main.{limiter, serve}
use pokecatch.Gateway.Main.Authentic.{IsAuthentic, served_IsAuthentic}

-- The range that meets the trades first.
abbrev order : List Route
order =
    record { prefix = "/v1/trades"; upstream = "http://profile:8081" }
    ∷ record { prefix = "/v1/auth"; upstream = "http://auth:8080" }
    ∷ record { prefix = "/v1/profile"; upstream = "http://profile:8081" }
    ∷ record { prefix = "/v1/creatures"; upstream = "http://profile:8081" }
    ∷ record { prefix = "/v1/team"; upstream = "http://profile:8081" }
    ∷ record { prefix = "/v1/matchmaking"; upstream = "http://matchmaking:8083" }
    ∷ record { prefix = "/v1/leaderboard"; upstream = "http://leaderboard:8084" }
    ∷ []

order-IsRange : IsRange order
order-IsRange r = (ground arith, ground arith)

upstream_any_order_example : upstream order "/v1/team/7" ≡ upstream new_router "/v1/team/7"
upstream_any_order_example = upstream_any_order order "/v1/team/7" order-IsRange

abbrev request : Request
request = record {
  path = "/v1/team";
  headers = put (put empty "Authorization" "Bearer h.p.m") "X-Account-Id" "eve";
  remote_addr = "10.0.0.1:5000";
}

abbrev passed_on : Request
passed_on = record request { headers = put request.headers "X-Account-Id" "ada" }

served_IsAuthentic_example :
    ("http://profile:8081" ≡ auth_upstream)
    ⊎ IsAuthentic codec mac (pos 6000000000) request passed_on
unfolding serve serve_http is_public has_prefix bearer strip_prefix get put empty trim_space
    verify_access_token split unix allow upstream
served_IsAuthentic_example =
    served_IsAuthentic codec mac order (pos 6000000000) (pos 6000000001) limiter request passed_on
      "http://profile:8081" codec-IsCodec order-IsRange refl

abbrev call : Call
call = record { key = "ada"; route = "/v1/team"; now = pos 5 }

abbrev later_calls : List Call
later_calls =
    call
    ∷ record { key = "eve"; route = "/v1/team"; now = pos 900 }
    ∷ record call { now = pos 15 }
    ∷ []

window_exact_example :
    allowed_of "ada|/v1/team" (new_memory_limiter (pos 2) (pos 10)) (call ∷ later_calls)
    ≡ min (calls_of "ada|/v1/team" (call ∷ later_calls)) (max 1 2)
unfolding ◌+ℤ◌ get empty
window_exact_example =
    window_exact (new_memory_limiter (pos 2) (pos 10)) call later_calls "ada|/v1/team" refl
      (ground arith) (ground arith)
