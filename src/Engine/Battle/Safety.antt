-- ===== src/Engine/Battle/Safety.antt =====
-- A turn never panics, and keeps every battler's hit points and boost levels in range.
pub mod Phases
pub mod Attacks
pub mod Turn
use pokecatch.Prelude.{
  zero, suc, ℕ, ◌<◌, ◌≡◌, refl, ◌⊎◌, inl, inr, Bool, true, false, not, Option, none, some, List, [],
  ◌∷◌, All, All-set, All-get_elem?, length, length-set, get_elem?, get_elem?_total, get_elem?-lt,
  set, arith, Bool-cases, Option-cases, if◌then◌else◌,
}
use pokecatch.Prelude.Int.{ℤ, pos, negsuc, ◌+ℤ◌}
use pokecatch.Prelude.Partial.{Returns}
use pokecatch.Engine.Battler.{Battler, fainted}
use pokecatch.Engine.Battler.Bounds.{IsSound}
use pokecatch.Engine.Battle.Exchange.{Seat, first, second, other}
use pokecatch.Engine.Battle.{
  Side, Battle, side_of, with_side, active_battler, put_active, has_usable, has_usable_in,
}

-- The active index is in range and every battler is sound.
pub record IsReady (s : Side) : Type 0 where
  pub in_range : s.active < length s.party
  pub sound : All IsSound s.party

abbrev pub IsSafe : Battle → Type 0
IsSafe bt = (seat : Seat) → IsReady (side_of bt seat)

pub active_battler-Returns : (s : Side) → IsReady s → Returns IsSound (active_battler s)
active_battler-Returns s h =
    let (b, e) = get_elem?_total s.party s.active h.in_range in
    (b, e, All-get_elem? IsSound s.party s.active h.sound e)

pub put_active-IsReady : (s : Side) (b : Battler) → IsReady s → IsSound b → IsReady (put_active s b)
put_active-IsReady s b h k = record {
  in_range = omega (arith, h.in_range, length-set s.party s.active b);
  sound = All-set IsSound s.party s.active b h.sound k;
}

pub with_side-IsSafe :
    (bt : Battle) (seat : Seat) (s : Side) → IsSafe bt → IsReady s → IsSafe (with_side bt seat s)
with_side-IsSafe bt first s h k first = k
with_side-IsSafe bt first s h k second = h second
with_side-IsSafe bt second s h k first = h first
with_side-IsSafe bt second s h k second = k

-- What checkVictory finds: whether the battle is over and who has won.
abbrev pub judge : Bool → Bool → Bool × ℤ
judge true true = (false, negsuc 0)
judge true false = (true, pos 0)
judge false true = (true, pos 1)
judge false false = (true, negsuc 0)

-- The verdict of the battle is that of its two sides.
pub record IsJudged (bt : Battle) : Type 0 where
  pub over : bt.over ≡ (judge (has_usable bt.side_a) (has_usable bt.side_b)).0
  pub winner : bt.winner ≡ (judge (has_usable bt.side_a) (has_usable bt.side_b)).1

pub record IsRunning (bt : Battle) : Type 0 where
  pub going : bt.over ≡ false
  pub open_ : bt.winner ≡ negsuc 0

has_usable_in-set :
    (bs : List Battler) (i : ℕ) (b c : Battler)
    → get_elem? bs i ≡ some b
    → c.cur_hp ≡ b.cur_hp
    → has_usable_in (set bs i c) ≡ has_usable_in bs
unfolding has_usable_in
has_usable_in-set [] i b c e h = refl
has_usable_in-set (x ∷ bs) zero b c e h = let same : x.cur_hp ≡ c.cur_hp = cc (e, h) in rw same
has_usable_in-set (x ∷ bs) (suc i) b c e h = rw (has_usable_in-set bs i b c e h)

pub has_usable-put_active :
    (s : Side) (b c : Battler)
    → active_battler s ≡ some b
    → c.cur_hp ≡ b.cur_hp
    → has_usable (put_active s c) ≡ has_usable s
unfolding has_usable
has_usable-put_active s b c e h = has_usable_in-set s.party s.active b c e h
