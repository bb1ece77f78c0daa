-- ===== src/Engine/Rng.antt =====
-- services/battle/internal/engine/rng.go: SplitMix64. A generator is its uint64 state, and a draw
-- returns the state after it.
pub mod Laws
use Prim.Native.Nat.{bit_xor}
use pokecatch.Prelude.{
  ℕ, ◌+◌, ◌*◌, ◌/◌, ◌%◌, ◌^◌, Bool, true, false, Option, none, some, if◌then◌else◌,
}
use pokecatch.Prelude.Int.{ℤ, pos, pos_part, ltb_ℤ, leb_ℤ}
use pokecatch.Prelude.Float.{Float64}

abbrev pub Rng : Type 0
Rng = ℕ

abbrev pub u64_mod : ℕ
u64_mod = 2 ^ 64

abbrev pub gamma : ℕ
gamma = 0x9E3779B97F4A7C15

mul64 : ℕ → ℕ → ℕ
mul64 a b = a * b % u64_mod

abbrev shr : ℕ → ℕ → ℕ
shr x k = x / 2 ^ k

-- The output function of `next`.
pub mix : ℕ → ℕ
unfolding mul64
mix z =
    let z1 = mul64 (bit_xor z (shr z 30)) 0xBF58476D1CE4E5B9 in
    let z2 = mul64 (bit_xor z1 (shr z1 27)) 0x94D049BB133111EB in bit_xor z2 (shr z2 31)

pub advance : Rng → Rng
advance r = (r + gamma) % u64_mod

pub next : Rng → ℕ × Rng
unfolding mix advance
next r = (mix (advance r), advance r)

-- next() % uint64(n)
unfoldable pub draw : ℕ → Rng → ℕ × Rng
unfolding next
draw n r = ((next r).0 % n, (next r).1)

-- `none` is the panic of IntN.
unfoldable pub int_n : ℤ → Rng → Option (ℕ × Rng)
unfolding draw
int_n n r = if leb_ℤ n (pos 0) then none else some (draw (pos_part n) r)

unfoldable pub chance : ℤ → Rng → Bool × Rng
unfolding draw
chance pct r =
    if leb_ℤ pct (pos 0)
    then (false, r)
    else if leb_ℤ (pos 100) pct
    then (true, r)
    else (ltb_ℤ (pos (draw 100 r).0) pct, (draw 100 r).1)

-- Float, in [0, 1)
unfoldable pub float : (fl : Float64) → Rng → fl.F × Rng
unfolding next
float fl r = (fl.ratio (shr (next r).0 11) (2 ^ 53), (next r).1)
