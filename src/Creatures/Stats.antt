-- ===== src/Creatures/Stats.antt =====
-- pkg/creatures/stats.go.
pub mod Levels
use pokecatch.Prelude.{
  ℕ, suc, zero, ◌+◌, ◌*◌, ◌≤◌, ◌<◌, String, ◌≡◌, arith, str_eq, ltb, leb, if◌then◌else◌, ◌&&◌, refl,
}
use pokecatch.Prelude.Int.{ℤ, pos, ◌+ℤ◌, ◌*ℤ◌, quot}
use pokecatch.Prelude.Float.{Float64}
use pokecatch.Types.{Stats}
use pokecatch.Creatures.Model.{Nature, Species, Instance}

abbrev core : ℤ → ℤ → ℤ → ℤ → ℤ
core base iv ev lvl = quot ((pos 2 *ℤ base +ℤ iv +ℤ quot ev 4) *ℤ lvl) 100

unfoldable pub calc_hp : ℤ → ℤ → ℤ → ℤ → ℤ
calc_hp base iv ev lvl = core base iv ev lvl +ℤ lvl +ℤ pos 10

module _ (fl : Float64) where
  nature_mult : Nature → String → fl.F
  nature_mult n stat =
      if str_eq n.up n.down
      then fl.ratio 1 1
      else if str_eq stat n.up
      then fl.ratio 11 10
      else if str_eq stat n.down
      then fl.ratio 9 10
      else fl.ratio 1 1

  calc : Nature → String → ℤ → ℤ → ℤ → ℤ → ℤ
  unfolding nature_mult
  calc nature stat base iv ev lvl =
      fl.trunc (fl.mul (fl.of_int (core base iv ev lvl +ℤ pos 5)) (nature_mult nature stat))

  unfoldable pub compute_stats : Species → Instance → Stats
  unfolding calc_hp calc
  compute_stats sp inst = record {
    hp = calc_hp base.hp ivs.hp evs.hp level;
    attack = calc nature "attack" base.attack ivs.attack evs.attack level;
    defense = calc nature "defense" base.defense ivs.defense evs.defense level;
    sp_attack = calc nature "sp_attack" base.sp_attack ivs.sp_attack evs.sp_attack level;
    sp_defense = calc nature "sp_defense" base.sp_defense ivs.sp_defense evs.sp_defense level;
    speed = calc nature "speed" base.speed ivs.speed evs.speed level;
  }
    where
      open sp use {base}
      open inst use {ivs, evs, nature, level}

pub xp_for_level : ℕ → ℕ
xp_for_level level = level * level * level

-- The loop of LevelForXP from the level `lvl`, with fuel.
pub climb : ℕ → ℕ → ℕ → ℕ
unfolding xp_for_level
climb zero lvl xp = lvl
climb (suc fuel) lvl xp =
    let rest = climb fuel (lvl + 1) xp in
    if ltb lvl 100 && leb (xp_for_level (lvl + 1)) xp then rest else lvl

-- A level is at most 100, so 100 rounds are enough.
pub level_for_xp : ℕ → ℕ
unfolding climb
level_for_xp xp = climb 100 1 xp
