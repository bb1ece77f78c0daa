-- ===== src/Ai.antt =====
-- services/battle/internal/ai/ai.go: the action that the battle AI chooses. Scores are doubles; the
-- type multiplier is held in quarters until it meets one. The randomness is a parameter.
pub mod Legal
pub mod Best
pub mod Tests
use pokecatch.Prelude.{
  ℕ, suc, String, Bool, true, false, not, ◌&&◌, ◌||◌, Option, none, some, List, [], ◌∷◌, ◌++◌, ltb,
  leb, ◌==◌, if◌then◌else◌,
}
use pokecatch.Prelude.Int.{ℤ, pos, ltb_ℤ}
use pokecatch.Prelude.Float.{Float64}
use pokecatch.Types.{
  Element, StatusCondition, healthy, status_only, is_class, is_status, dual_effectiveness,
}
use pokecatch.Creatures.Model.{Skill, SkillEffect}

pub data Difficulty : Type 0 where
  easy normal hard boss : Difficulty

-- mistakeChance
abbrev pub mistake_chance : Difficulty → ℤ
mistake_chance easy = pos 35
mistake_chance normal = pos 15
mistake_chance hard = pos 3
mistake_chance boss = pos 0

pub record View (F : Type 0) : Type 0 where
  pub dex_id : ℤ
  pub element1 : Element
  pub element2 : Element
  pub hp_frac : F
  pub speed : ℤ
  pub status : StatusCondition
  pub moves : List (Skill F)
  pub fainted : Bool

pub record Decision : Type 0 where
  pub switch : Bool
  pub skill_idx : ℕ
  pub switch_to : ℕ

pub record Scored (F : Type 0) : Type 0 where
  pub dec : Decision
  pub score : F

-- An option with its index
pub record Candidate (F : Type 0) : Type 0 where
  pub index : ℕ
  pub chosen : Scored F

abbrev pub move_decision : ℕ → Decision
move_decision i = record { switch = false; skill_idx = i; switch_to = 0 }

abbrev pub switch_decision : ℕ → Decision
switch_decision i = record { switch = true; skill_idx = 0; switch_to = i }

module _ (fl : Float64) where
  open fl use {F, of_int, ratio, add, sub, mul, div, lt}

  abbrev min : ℤ → ℤ → ℤ
  min a b = if ltb_ℤ a b then a else b

  abbrev of_quarters : ℕ → F
  of_quarters q = div (of_int (pos q)) (ratio 4 1)

  abbrev inflicts : Option (SkillEffect F) → Bool
  inflicts none = false
  inflicts (some e) = not (is_status e.status healthy)

  abbrev status_score : View F → Skill F → F
  status_score opp mv =
      if inflicts mv.effect && is_status opp.status healthy && lt (ratio 1 2) opp.hp_frac
      then ratio 60 1
      else ratio 20 1

  -- The doubles of scoreMove, with the bonus for a likely knock-out
  abbrev damage_score : View F → View F → Skill F → ℕ → F
  damage_score self opp mv eff =
      let stab =
        if (mv.element == self.element1) || (mv.element == self.element2)
        then ratio 3 2
        else ratio 1 1 in
      let acc = div (of_int (min mv.accuracy (pos 100))) (ratio 100 1) in
      let expected = mul (mul (mul (of_int mv.power) (of_quarters eff)) stab) acc in
      if lt opp.hp_frac (mul expected (ratio 4 1000)) then add expected (ratio 120 1) else expected

  unfoldable pub score_move : View F → View F → Skill F → F
  score_move self opp mv =
      let eff = dual_effectiveness mv.element opp.element1 opp.element2 in
      if is_class mv.class status_only
      then status_score opp mv
      else if eff == 0
      then ratio 0 1
      else damage_score self opp mv eff

  abbrev incoming : View F → View F → ℕ
  incoming self opp = dual_effectiveness opp.element1 self.element1 self.element2

  abbrev is_low : View F → Bool
  is_low v = lt v.hp_frac (ratio 1 4)

  unfoldable pub score_switch : View F → View F → View F → F
  score_switch bench_one self opp =
      let def_mult = dual_effectiveness opp.element1 bench_one.element1 bench_one.element2 in
      let resist_value = mul (sub (ratio 2 1) (of_quarters def_mult)) (ratio 30 1) in
      let threatened =
        if leb 8 (incoming self opp) then add (ratio 0 1) (ratio 40 1) else ratio 0 1 in
      let urgency = if is_low self then add threatened (ratio 40 1) else threatened in
      sub (add resist_value urgency) (ratio 15 1)

  unfoldable pub should_consider_switch : View F → View F → Bool
  should_consider_switch self opp = leb 8 (incoming self opp) || is_low self

  -- The options from the move `i` on, and from the bench member `i` on
  unfoldable pub move_options : View F → View F → ℕ → List (Skill F) → List (Scored F)
  unfolding score_move
  move_options self opp i [] = []
  move_options self opp i (mv ∷ mvs) =
      record { dec = move_decision i; score = score_move self opp mv }
      ∷ move_options self opp (suc i) mvs

  unfoldable pub switch_options : View F → View F → ℕ → List (View F) → List (Scored F)
  unfolding score_switch
  switch_options self opp i [] = []
  switch_options self opp i (b ∷ bs) =
      let rest = switch_options self opp (suc i) bs in
      if b.fainted
      then rest
      else record { dec = switch_decision i; score = score_switch b self opp } ∷ rest

  abbrev pub options : View F → List (View F) → View F → List (Scored F)
  options self bench opp =
      move_options self opp 0 self.moves
      ++ (if should_consider_switch self opp then switch_options self opp 0 bench else [])

  -- One round of the selection: the best and the second best so far, and the next option
  abbrev pub ranked : Candidate F → Candidate F → Candidate F → Candidate F × Candidate F
  ranked best second next =
      if lt best.chosen.score next.chosen.score
      then (next, best)
      else if lt second.chosen.score next.chosen.score || (second.index == best.index)
      then (best, next)
      else (best, second)

  unfoldable pub best_two :
      ℕ → Candidate F × Candidate F → List (Scored F) → Candidate F × Candidate F
  best_two i so_far [] = so_far
  best_two i so_far (o ∷ os) =
      best_two (suc i) (ranked so_far.0 so_far.1 (record { index = i; chosen = o })) os

  module _ {R : Type 0} (chance : ℤ → R → Bool × R) where
    abbrev pub settle : Difficulty → Candidate F × Candidate F → R → Decision × R
    settle d top r =
        if top.0.index == top.1.index
        then (top.0.chosen.dec, r)
        else let slip = chance (mistake_chance d) r in
          ((if slip.0 then top.1.chosen.dec else top.0.chosen.dec), slip.1)

    abbrev pub choose : Difficulty → List (Scored F) → R → Decision × R
    choose d [] r = (move_decision 0, r)
    choose d (o ∷ os) r =
        let first : Candidate F = record { index = 0; chosen = o } in
        settle d (best_two 1 (first, first) os) r

    -- ChooseAction
    unfoldable pub choose_action : R → Difficulty → View F → List (View F) → View F → Decision × R
    choose_action r d self bench opp = choose d (options self bench opp) r
