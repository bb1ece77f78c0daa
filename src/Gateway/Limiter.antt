-- ===== src/Gateway/Limiter.antt =====
-- The in-memory limiter of services/gateway/internal/gateway.go. Times are nanoseconds; the clock
-- of each call is an argument.
pub mod Window
use pokecatch.Prelude.{
  String, Bool, true, false, ◌||◌, Option, none, some, List, [], ◌∷◌, if◌then◌else◌,
}
use pokecatch.Prelude.Int.{ℤ, pos, ◌+ℤ◌, ◌-ℤ◌, leb_ℤ, ltb_ℤ}
use pokecatch.Prelude.Dict.{Dict, empty, get, put}
use pokecatch.Prelude.Text.{◌++◌}

pub record Bucket : Type 0 where
  pub tokens : ℤ
  pub reset : ℤ

pub record MemoryLimiter : Type 0 where
  pub buckets : Dict Bucket
  pub rate : ℤ
  pub window : ℤ

abbrev pub new_memory_limiter : ℤ → ℤ → MemoryLimiter
new_memory_limiter rate window = record { buckets = empty; rate = rate; window = window }

abbrev pub bucket_key : String → String → String
bucket_key key route = key ++ "|" ++ route

abbrev pub put_bucket : MemoryLimiter → String → Bucket → MemoryLimiter
put_bucket m k b = record m { buckets = put m.buckets k b }

-- A new window, which this request is the first of
abbrev pub new_window : MemoryLimiter → ℤ → String → Bool × MemoryLimiter
new_window m now k =
    (true, put_bucket m k (record { tokens = m.rate -ℤ pos 1; reset = now +ℤ m.window }))

abbrev pub take_token : MemoryLimiter → String → Bucket → Bool × MemoryLimiter
take_token m k b =
    if leb_ℤ b.tokens (pos 0)
    then (false, m)
    else (true, put_bucket m k (record b { tokens = b.tokens -ℤ pos 1 }))

abbrev pub allow_in : MemoryLimiter → ℤ → String → Option Bucket → Bool × MemoryLimiter
allow_in m now k none = new_window m now k
allow_in m now k (some b) = if ltb_ℤ b.reset now then new_window m now k else take_token m k b

unfoldable pub allow : ℤ → MemoryLimiter → String → String → Bool × MemoryLimiter
allow now m key route = let k = bucket_key key route in allow_in m now k (get m.buckets k)
