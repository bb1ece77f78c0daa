-- ===== src/Matchmaking/Fair.antt =====
-- Which matches the comments of services/matchmaking/internal/matcher.go allow, in the ratings and the
-- times alone, and that the test of a candidate in Pair is this.
use Prim.Native.String.{◌++◌ as str_append}
use pokecatch.Prelude.{◌≡◌, true, ◌⊎◌, inl, inr, arith, Bool-cases}
use pokecatch.Prelude.Int.{
  ℤ, pos, ◌+ℤ◌, ◌-ℤ◌, ◌*ℤ◌, ◌≤ℤ◌, ◌<ℤ◌, quot, ltb_ℤ, leb_ℤ, +ℤ_parts, -ℤ_parts, eq_of_parts,
}
use pokecatch.Prelude.Float.{Float64}
use pokecatch.Matchmaking.{Ticket, Match, Policy, is_allowed, is_timed_out, band, gap_of}

module _ (fl : Float64) (p : Policy) (now : ℤ) where
  -- `d` is the distance of two ratings.
  abbrev pub IsDistance : ℤ → ℤ → ℤ → Type 0
  IsDistance x y d = (pos 0 ≤ℤ d) × ((x ≡ y +ℤ d) ⊎ (y ≡ x +ℤ d))

  -- The doubles' sum of the whole seconds and the rest of a duration, as time.Duration.Seconds has
  -- it, cut to an int.
  abbrev pub seconds : ℤ → ℤ
  seconds d = fl.trunc (
      fl.add (fl.of_int (quot d 1000000000))
        (fl.div (fl.of_int (d -ℤ quot d 1000000000 *ℤ pos 1000000000)) (fl.ratio 1000000000 1)))

  -- The distance `d` is within what `t` accepts: the base, widened by each second of waiting and a
  -- quarter of the deviation, but never more than the cap.
  abbrev pub Accepts : Ticket fl.F → ℤ → Type 0
  Accepts t d =
      (d ≤ℤ p.max_band)
      × (d
          ≤ℤ p.base_band
            +ℤ seconds (now -ℤ t.wait_started) *ℤ p.widen_per_sec
            +ℤ fl.trunc (fl.div t.rd (fl.ratio 4 1)))

  -- More than the hard timeout has passed since `t` began to wait.
  abbrev pub IsOverdue : Ticket fl.F → Type 0
  IsOverdue t = t.wait_started +ℤ p.hard_timeout <ℤ now

  -- A match that the policy allows, of two tickets of one region and mode.
  pub record IsFair (m : Match fl.F) : Type 0 where
    pub distance : IsDistance m.a.mmr m.b.mmr m.band_used
    pub allowed :
        (Accepts m.a m.band_used ⊎ Accepts m.b m.band_used) ⊎ (IsOverdue m.a ⊎ IsOverdue m.b)
    pub together :
        str_append m.a.region (str_append "|" m.a.mode)
        ≡ str_append m.b.region (str_append "|" m.b.mode)

  pub gap_of-IsDistance : (t u : Ticket fl.F) → IsDistance t.mmr u.mmr (gap_of fl p now t u)
  gap_of-IsDistance t u =
      let apart = t.mmr -ℤ u.mmr in
      let back = pos 0 -ℤ apart in
      let first = -ℤ_parts t.mmr u.mmr in
      elim (Bool-cases (ltb_ℤ apart (pos 0))) [
        | inl e ↦
            let below : apart <ℤ pos 0 = ground (arith, e) in
            let second = -ℤ_parts (pos 0) apart in
            rw e (
              omega (arith, below, second),
              inr (eq_of_parts _ _ (omega (arith, first, second, +ℤ_parts t.mmr back))),
            )
        | inr e ↦
            let above : pos 0 ≤ℤ apart = ground (arith, e) in
            rw e (above, inl (eq_of_parts _ _ (omega (arith, first, +ℤ_parts u.mmr apart))))
      ]

  band-Accepts : (t : Ticket fl.F) (d : ℤ) → leb_ℤ d (band fl p now t) ≡ true → Accepts t d
  unfolding band
  band-Accepts t d h = (ground (arith, h), ground (arith, h))

  is_timed_out-IsOverdue : (t : Ticket fl.F) → is_timed_out fl p now t ≡ true → IsOverdue t
  is_timed_out-IsOverdue t h =
      let waited = now -ℤ t.wait_started in
      let beyond : p.hard_timeout <ℤ waited = ground (arith, h) in
      omega (arith, beyond, -ℤ_parts now t.wait_started, +ℤ_parts t.wait_started p.hard_timeout)

  pub is_allowed-fair :
      (t u : Ticket fl.F)
      → is_allowed fl p now t u ≡ true
      → (Accepts t (gap_of fl p now t u) ⊎ Accepts u (gap_of fl p now t u))
        ⊎ (IsOverdue t ⊎ IsOverdue u)
  is_allowed-fair t u h =
      let d = gap_of fl p now t u in
      elim (Bool-cases (leb_ℤ d (band fl p now t))) [
        | inl e ↦ inl (inl (band-Accepts t d e))
        | inr e ↦ elim (Bool-cases (leb_ℤ d (band fl p now u))) [
          | inl f ↦ inl (inr (band-Accepts u d f))
          | inr f ↦ elim (Bool-cases (is_timed_out fl p now t)) [
            | inl g ↦ inr (inl (is_timed_out-IsOverdue t g))
            | inr g ↦ inr (inr (is_timed_out-IsOverdue u (ground (arith, h, e, f, g))))
          ]
        ]
      ]
