-- ===== src/Gateway/Limiter/Window.antt =====
-- How many requests of one key the limiter of services/gateway/internal/gateway.go lets through in a
-- window.
use pokecatch.Prelude.{
  ℕ, suc, ◌≡◌, refl, ◌∙◌, ap, String, Bool, true, false, ◌&&◌, Option, none, some, List, [], ◌∷◌,
  str_eq, eq_iff, arith, leb, Bool-cases, inl, inr, if◌then◌else◌,
}
use pokecatch.Prelude.Int.{ℤ, pos, pos_part, ◌+ℤ◌, ◌-ℤ◌, leb_ℤ, ltb_ℤ, -ℤ_parts}
use pokecatch.Prelude.Dict.{get, get-put, get-put_self}
use pokecatch.Gateway.Limiter.{
  Bucket, MemoryLimiter, bucket_key, put_bucket, new_window, take_token, allow_in, allow,
}

pub record Call : Type 0 where
  pub key : String
  pub route : String
  pub now : ℤ

abbrev pub is_of : String → Call → Bool
is_of k c = str_eq (bucket_key c.key c.route) k

abbrev pub allow_call : MemoryLimiter → Call → Bool × MemoryLimiter
allow_call m c = allow c.now m c.key c.route

-- How many of the calls are of the bucket `k`.
abbrev pub calls_of : String → List Call → ℕ
calls_of k [] = 0
calls_of k (c ∷ cs) = let n = calls_of k cs in if is_of k c then suc n else n

-- How many of the calls of the bucket `k` are let through, one after the other.
unfoldable pub allowed_of : String → MemoryLimiter → List Call → ℕ
allowed_of k m [] = 0
allowed_of k m (c ∷ cs) =
    let n = allowed_of k (allow_call m c).1 cs in
    if is_of k c && (allow_call m c).0 then suc n else n

-- No call of the bucket comes after the time.
abbrev pub AreBy : String → ℤ → List Call → Type 0
AreBy k end_ [] = Unit {0}
AreBy k end_ (c ∷ cs) = (is_of k c ≡ true → ltb_ℤ end_ c.now ≡ false) × AreBy k end_ cs

abbrev pub min : ℕ → ℕ → ℕ
min a b = if leb a b then a else b

abbrev pub max : ℕ → ℕ → ℕ
max a b = if leb a b then b else a

get-allow_in :
    (m : MemoryLimiter) (now : ℤ) (j k : String) (found : Option Bucket)
    → str_eq j k ≡ false
    → get (allow_in m now j found).1.buckets k ≡ get m.buckets k
get-allow_in m now j k none h = rw (get-put m.buckets j k _, h) refl
get-allow_in m now j k (some b) h = ground (
  arith,
  h,
  get-put m.buckets j k (record { tokens = m.rate -ℤ pos 1; reset = now +ℤ m.window }),
  get-put m.buckets j k (record b { tokens = b.tokens -ℤ pos 1 }),
)

get-other :
    (m : MemoryLimiter) (c : Call) (k : String)
    → is_of k c ≡ false
    → get (allow_call m c).1.buckets k ≡ get m.buckets k
unfolding allow
get-other m c k h =
    get-allow_in m c.now (bucket_key c.key c.route) k (get m.buckets (bucket_key c.key c.route)) h

-- A call of the bucket, when the bucket is there and its window is not over.
allow_found :
    (m : MemoryLimiter) (c : Call) (k : String) (b : Bucket)
    → is_of k c ≡ true
    → get m.buckets k ≡ some b
    → ltb_ℤ b.reset c.now ≡ false
    → allow_call m c ≡ take_token m k b
unfolding allow
allow_found m c k b h e t =
    let same = (eq_iff (bucket_key c.key c.route) k).0 h in
    ap (λ j. allow_in m c.now j (get m.buckets j)) same ∙ ap (allow_in m c.now k) e ∙ rw t refl

dry_step :
    (m : MemoryLimiter) (k : String) (b : Bucket)
    → leb_ℤ b.tokens (pos 0) ≡ true
    → take_token m k b ≡ (false, m)
dry_step m k b h = rw h refl

wet_step :
    (m : MemoryLimiter) (k : String) (b : Bucket)
    → leb_ℤ b.tokens (pos 0) ≡ false
    → take_token m k b ≡ (true, put_bucket m k (record b { tokens = b.tokens -ℤ pos 1 }))
wet_step m k b h = rw h refl

tokens_left :
    (m : MemoryLimiter) (k : String) (b : Bucket) (cs : List Call)
    → get m.buckets k ≡ some b
    → AreBy k b.reset cs
    → allowed_of k m cs ≡ min (calls_of k cs) (pos_part b.tokens)
unfolding allowed_of
tokens_left m k b [] e h = ground arith
tokens_left m k b (c ∷ cs) e h = elim (Bool-cases (is_of k c)) [
  | inr off ↦
      ground (arith, off, tokens_left (allow_call m c).1 k b cs (get-other m c k off ∙ e) h.1)
  | inl on ↦
      let step = allow_found m c k b on e (h.0 on) in
      elim (Bool-cases (leb_ℤ b.tokens (pos 0))) [
        | inl dry ↦
            rw (step, dry_step m k b dry) (ground (arith, on, dry, tokens_left m k b cs e h.1))
        | inr wet ↦
            let left : Bucket = record b { tokens = b.tokens -ℤ pos 1 } in
            let rest =
              tokens_left (put_bucket m k left) k left cs (get-put_self m.buckets k left) h.1 in
            rw (step, wet_step m k b wet) (ground (arith, on, wet, rest, -ℤ_parts b.tokens (pos 1)))
      ]
]

-- A bucket that is missing, or whose window is over.
abbrev pub IsOver : Option Bucket → ℤ → Type 0
IsOver none now = Unit {0}
IsOver (some b) now = ltb_ℤ b.reset now ≡ true

opens_window :
    (m : MemoryLimiter) (now : ℤ) (k : String) (found : Option Bucket)
    → IsOver found now
    → allow_in m now k found ≡ new_window m now k
opens_window m now k none h = refl
opens_window m now k (some b) h = rw h refl

-- From a call of a bucket that is missing or whose window is over, if the later calls of the
-- bucket come no later than a window after it, then of the calls of the bucket, interleaved with
-- those of others, exactly the smaller of their number and the rate are let through, and one if
-- the rate is below one.
pub window_exact :
    (m : MemoryLimiter) (c : Call) (cs : List Call) (k : String)
    → bucket_key c.key c.route ≡ k
    → IsOver (get m.buckets k) c.now
    → AreBy k (c.now +ℤ m.window) cs
    → allowed_of k m (c ∷ cs) ≡ min (calls_of k (c ∷ cs)) (max 1 (pos_part m.rate))
unfolding allowed_of allow
window_exact m c cs k same over by =
    let on = (eq_iff (bucket_key c.key c.route) k).1 same in
    let first : Bucket = record { tokens = m.rate -ℤ pos 1; reset = c.now +ℤ m.window } in
    let step =
      ap (λ j. allow_in m c.now j (get m.buckets j)) same
      ∙ opens_window m c.now k (get m.buckets k) over in
    let rest = tokens_left (put_bucket m k first) k first cs (get-put_self m.buckets k first) by in
    rw (step) (ground (arith, on, rest, -ℤ_parts m.rate (pos 1)))
