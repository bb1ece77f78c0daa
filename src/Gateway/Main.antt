-- ===== src/Gateway/Main.antt =====
-- services/gateway/cmd/main.go: the gateway with the token verifier and the in-memory limiter.
pub mod Authentic
use pokecatch.Prelude.{String, Option, none, some, List, Bool}
use pokecatch.Prelude.Int.{ℤ, pos}
use pokecatch.Prelude.Outcome.{Result, ok, err}
use pokecatch.Token.{Claims, TokenError, Codec, verify_access_token}
use pokecatch.Gateway.{Route, Request, Response, serve_http}
use pokecatch.Gateway.Limiter.{MemoryLimiter, new_memory_limiter, allow}

abbrev pub subject : Result TokenError Claims → Option String
subject (ok m) = some m.sub
subject (err e) = none

abbrev pub limiter : MemoryLimiter
limiter = new_memory_limiter (pos 120) (pos 60000000000)

module _ {Bytes : Type 0} (c : Codec Bytes) (secret : Bytes) where
  -- The function that VerifierFunc wraps, at the time of its call.
  abbrev pub verifier : ℤ → String → Option String
  verifier now tok = subject (verify_access_token c secret now tok)

  -- One request; the verifier and the limiter each read the clock.
  unfoldable pub serve : List Route → ℤ → ℤ → MemoryLimiter → Request → Response × MemoryLimiter
  serve routes now later m r = serve_http (verifier now) (allow later) routes m r
