-- ===== src/Matchmaking.antt =====
-- services/matchmaking/internal/matcher.go: the pairing of a pool of tickets. Times are
-- nanoseconds. The order in which the map of groups is ranged over, and sort.Slice, which fixes no
-- order among equal ratings, are arguments.
pub mod Fair
pub mod Pairing
pub mod Tests
use Prim.Native.String.{◌++◌ as str_append}
use pokecatch.Prelude.{
  ℕ, suc, String, Bool, false, not, ◌&&◌, ◌||◌, Option, none, some, List, [], ◌∷◌, ◌++◌, ◌==◌,
  str_eq, if◌then◌else◌,
}
use pokecatch.Prelude.Int.{ℤ, pos, ◌+ℤ◌, ◌-ℤ◌, ◌*ℤ◌, quot, ltb_ℤ, leb_ℤ}
use pokecatch.Prelude.Float.{Float64}

pub record Ticket (F : Type 0) : Type 0 where
  pub account_id : String
  pub mmr : ℤ
  pub rd : F
  pub region : String
  pub mode : String
  pub wait_started : ℤ

pub record Match (F : Type 0) : Type 0 where
  pub a : Ticket F
  pub b : Ticket F
  pub band_used : ℤ

pub record Policy : Type 0 where
  pub base_band : ℤ
  pub widen_per_sec : ℤ
  pub max_band : ℤ
  pub hard_timeout : ℤ

abbrev pub default_policy : Policy
default_policy = record {
  base_band = pos 50;
  widen_per_sec = pos 25;
  max_band = pos 400;
  hard_timeout = pos 30000000000;
}

abbrev pub abs : ℤ → ℤ
abs x = if ltb_ℤ x (pos 0) then pos 0 -ℤ x else x

-- The flags of `used`, by index.
abbrev pub mark : (ℕ → Bool) → ℕ → ℕ → Bool
mark used i j = j == i || used j

abbrev pub none_used : ℕ → Bool
none_used i = false

-- The best candidate so far: `best` and `bestGap`, with the ticket at `best`.
pub record Best (F : Type 0) : Type 0 where
  pub index : ℕ
  pub ticket : Ticket F
  pub gap : ℤ

module _ {F : Type 0} where
  abbrev pub key_of : Ticket F → String
  key_of t = str_append t.region (str_append "|" t.mode)

  -- byMode[key]
  abbrev pub group_of : String → List (Ticket F) → List (Ticket F)
  group_of key [] = []
  group_of key (t ∷ ts) = if str_eq (key_of t) key then t ∷ group_of key ts else group_of key ts

  abbrev pub best_gap : Option (Best F) → ℤ
  best_gap none = pos 1073741824
  best_gap (some b) = b.gap

module _ (fl : Float64) (p : Policy) (now : ℤ) where
  -- int(d.Seconds()): whole seconds and the rest, added as doubles.
  abbrev whole_seconds : ℤ → ℤ
  whole_seconds d =
      let s = quot d 1000000000 in
      let rest = d -ℤ s *ℤ pos 1000000000 in
      fl.trunc (fl.add (fl.of_int s) (fl.div (fl.of_int rest) (fl.ratio 1000000000 1)))

  unfoldable pub band : Ticket fl.F → ℤ
  band t =
      let b =
        p.base_band
        +ℤ whole_seconds (now -ℤ t.wait_started) *ℤ p.widen_per_sec
        +ℤ fl.trunc (fl.div t.rd (fl.ratio 4 1)) in
      if ltb_ℤ p.max_band b then p.max_band else b

  abbrev pub is_timed_out : Ticket fl.F → Bool
  is_timed_out t = ltb_ℤ p.hard_timeout (now -ℤ t.wait_started)

  abbrev pub gap_of : Ticket fl.F → Ticket fl.F → ℤ
  gap_of t u = abs (t.mmr -ℤ u.mmr)

  -- The test of a candidate, but for the best gap.
  abbrev pub is_allowed : Ticket fl.F → Ticket fl.F → Bool
  is_allowed t u =
      leb_ℤ (gap_of t u) (band t) || leb_ℤ (gap_of t u) (band u) || is_timed_out t || is_timed_out u

  abbrev pub is_beyond : Ticket fl.F → Ticket fl.F → Bool
  is_beyond t u = ltb_ℤ (band t) (u.mmr -ℤ t.mmr) && ltb_ℤ (band u) (u.mmr -ℤ t.mmr)

  -- One candidate at the index `j`.
  pub consider : Ticket fl.F → ℕ → Ticket fl.F → Option (Best fl.F) → Option (Best fl.F)
  consider t j u best =
      if is_allowed t u && ltb_ℤ (gap_of t u) (best_gap best)
      then some (record { index = j; ticket = u; gap = gap_of t u })
      else best

  -- The loop over j, from the tickets at index `j` on.
  pub scan :
      Ticket fl.F → (ℕ → Bool) → ℕ → List (Ticket fl.F) → Option (Best fl.F) → Option (Best fl.F)
  unfolding consider
  scan t used j [] best = best
  scan t used j (u ∷ us) best =
      let skip = scan t used (suc j) us best in
      let next = consider t j u best in
      let go_on = scan t used (suc j) us next in
      if used j then skip else if is_beyond t u then next else go_on

  -- What the loop over i makes of a ticket that is not used: a match, or a leftover.
  abbrev pub paired :
      Ticket fl.F
      → Best fl.F
      → List (Match fl.F) × List (Ticket fl.F)
      → List (Match fl.F) × List (Ticket fl.F)
  paired t b r = (record { a = t; b = b.ticket; band_used = b.gap } ∷ r.0, r.1)

  abbrev pub left_over :
      Ticket fl.F → List (Match fl.F) × List (Ticket fl.F) → List (Match fl.F) × List (Ticket fl.F)
  left_over t r = (r.0, t ∷ r.1)

  -- The loop over i, and the leftovers, from the tickets at index `i` on.
  pub pair_from : (ℕ → Bool) → ℕ → List (Ticket fl.F) → List (Match fl.F) × List (Ticket fl.F)
  unfolding scan
  pair_from used i [] = ([], [])
  pair_from used i (t ∷ ts) =
      let skip = pair_from used (suc i) ts in
      if used i then skip else elim (scan t used (suc i) ts none) [
        | none ↦ left_over t skip
        | some b ↦ paired t b (pair_from (mark (mark used b.index) i) (suc i) ts)
      ]

  abbrev pub joined :
      List (Match fl.F) × List (Ticket fl.F)
      → List (Match fl.F) × List (Ticket fl.F)
      → List (Match fl.F) × List (Ticket fl.F)
  joined r rest = (r.0 ++ rest.0, r.1 ++ rest.1)

  -- Pair, over the groups in the order of `keys`.
  pub pair :
      (List (Ticket fl.F) → List (Ticket fl.F))
      → List String
      → List (Ticket fl.F)
      → List (Match fl.F) × List (Ticket fl.F)
  unfolding pair_from
  pair sort [] pool = ([], [])
  pair sort (key ∷ keys) pool =
      joined (pair_from none_used 0 (sort (group_of key pool))) (pair sort keys pool)
