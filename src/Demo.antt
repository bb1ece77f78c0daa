-- ===== src/Demo.antt =====
-- services/battle/cmd/demo/main.go: the bots that play a match through the session. A bot asks the
-- battle AI for a decision on its view of the two sides; the AI's randomness is a parameter.
pub mod Options
pub mod Legal
pub mod Session
mod Tests
use pokecatch.Prelude.{
  ℕ, zero, suc, String, Bool, true, false, not, Option, none, some, List, [], ◌∷◌, get_elem?, map,
  ltb, leb, ◌==◌, ◌||◌, str_eq, if◌then◌else◌,
}
use pokecatch.Prelude.Int.{ℤ, pos, leb_ℤ, ltb_ℤ}
use pokecatch.Prelude.Float.{Float64}
use pokecatch.Prelude.Dict
use pokecatch.Prelude.Dict.{Dict}
use pokecatch.Prelude.Partial.{◌>>=◌}
use pokecatch.Types.{Stats}
use pokecatch.Creatures.Model.{
  Skill, Species, LearnEntry, PassiveAbility, no_ability, Nature, Instance, Dex, zero_instance,
}
use pokecatch.Engine.Battler.{Battler, fainted, new_battler}
use pokecatch.Engine.Battle.Exchange.{act_move, act_switch, MoveAction}
use pokecatch.Engine.Battle.{Side, active_battler}
use pokecatch.Ai.{View, Decision, normal, choose_action}

-- UniformStats
abbrev uniform : ℤ → Stats
uniform v = record { hp = v; attack = v; defense = v; sp_attack = v; sp_defense = v; speed = v }

-- What a bot does about a message
pub data BotStep : Type 0 where
  submits : MoveAction → BotStep
  waits stops : BotStep

-- A usable move and the slot it is in
pub record Usable (F : Type 0) : Type 0 where
  pub skill : Skill F
  pub slot : ℕ

abbrev pub switch_action : ℕ → MoveAction
switch_action i = record { kind = act_switch; skill_slot = pos 0; switch_to = pos i }

abbrev pub move_action : ℕ → MoveAction
move_action slot = record { kind = act_move; skill_slot = pos slot; switch_to = pos 0 }

-- The forced switch of a fainted battler
unfoldable pub first_standing : ℕ → List Battler → MoveAction
first_standing i [] = move_action 0
first_standing i (b ∷ bs) =
    let rest = first_standing (suc i) bs in if fainted b then rest else switch_action i

-- benchMap
unfoldable pub bench_map : ℕ → ℕ → List Battler → List ℕ
bench_map active i [] = []
bench_map active i (b ∷ bs) =
    let rest = bench_map active (suc i) bs in if i == active then rest else i ∷ rest

module _ (fl : Float64) where
  open fl use {F, of_int, ratio, div}

  -- The loop of toView
  unfoldable pub usable_from : Dict (Skill F) → ℕ → List String → List (Usable F)
  usable_from skills slot [] = []
  usable_from skills slot (id ∷ ids) =
      let rest = usable_from skills (suc slot) ids in
      if str_eq id "" then rest else elim (Dict.get skills id) [
        | none ↦ rest
        | some sk ↦ record { skill = sk; slot = slot } ∷ rest
      ]

  abbrev pub usable : Dex F → Battler → List (Usable F)
  usable dex b = usable_from dex.skills 0 b.inst.skill_ids

  abbrev pub moves_of : List (Usable F) → List (Skill F)
  moves_of [] = []
  moves_of (u ∷ us) = u.skill ∷ moves_of us

  abbrev hp_frac : Battler → F
  hp_frac b = if ltb_ℤ (pos 0) b.max_hp then div (of_int b.cur_hp) (of_int b.max_hp) else ratio 0 1

  -- The view of toView; its second result is the slots of `usable`
  abbrev pub to_view : Dex F → Battler → View F
  to_view dex b = record {
    dex_id = b.species.dex_id;
    element1 = b.species.element1;
    element2 = b.species.element2;
    hp_frac = hp_frac b;
    speed = b.stats.speed;
    status = b.status;
    moves = moves_of (usable dex b);
    fainted = fainted b;
  }

  unfoldable pub bench_views : Dex F → ℕ → ℕ → List Battler → List (View F)
  bench_views dex active i [] = []
  bench_views dex active i (b ∷ bs) =
      let rest = bench_views dex active (suc i) bs in
      if i == active then rest else to_view dex b ∷ rest

  abbrev pub slot_at : List (Usable F) → ℕ → Option ℕ
  slot_at [] i = none
  slot_at (u ∷ us) zero = some u.slot
  slot_at (u ∷ us) (suc i) = slot_at us i

  -- The decision of the AI as an action; an index out of range panics
  abbrev pub action_of : Dex F → Side → Battler → Decision → Option MoveAction
  action_of dex self active d =
      if d.switch
      then get_elem? (bench_map self.active 0 self.party) d.switch_to
        >>= (λ i. some (switch_action i))
      else slot_at (usable dex active) d.skill_idx >>= (λ slot. some (move_action slot))

  module _ {R : Type 0} (chance : ℤ → R → Bool × R) where
    abbrev pub decision : R → Side → Battler → Battler → Dex F → Decision × R
    decision r self active facing dex =
        choose_action fl chance r normal (to_view dex active)
          (bench_views dex self.active 0 self.party) (to_view dex facing)

    abbrev pub with_rng : Decision × R → Option MoveAction → Option (MoveAction × R)
    with_rng d none = none
    with_rng d (some act) = some (act, d.1)

    -- A battler that stands asks the AI
    abbrev pub advised : R → Side → Battler → Battler → Dex F → Option (MoveAction × R)
    advised r self active facing dex =
        let d = decision r self active facing dex in with_rng d (action_of dex self active d.0)

    -- The rest of decide, by whether the active battler has fainted
    abbrev pub acts : R → Side → Side → Dex F → Battler → Bool → Option (MoveAction × R)
    acts r self opp dex active true = some (first_standing 0 self.party, r)
    acts r self opp dex active false = do
      facing ← active_battler opp
      advised r self active facing dex

    unfoldable pub decide : R → Side → Side → Dex F → Option (MoveAction × R)
    decide r self opp dex = do
      active ← active_battler self
      acts r self opp dex active (fainted active)

    abbrev submitted : Option (MoveAction × R) → Option (BotStep × R)
    submitted none = none
    submitted (some (act, r)) = some (submits act, r)

    -- The switch of runBot on the type of a message from its inbox
    unfoldable pub on_message : R → String → Side → Side → Dex F → Option (BotStep × R)
    unfolding decide
    on_message r kind self opp dex =
        if str_eq kind "match_start" || str_eq kind "turn" || str_eq kind "state"
        then submitted (decide r self opp dex)
        else if str_eq kind "end"
        then some (stops, r)
        else some (waits, r)

  -- The first four entries of the learnset at the level or below
  unfoldable pub learned : ℤ → ℕ → List LearnEntry → List String
  learned level zero es = []
  learned level (suc n) [] = []
  learned level (suc n) (e ∷ es) =
      let skipped = learned level (suc n) es in
      let rest = learned level n es in if leb_ℤ e.level level then e.skill_id ∷ rest else skipped

  -- An array of four, the rest of it empty
  abbrev pub four : List String → List String
  four (a ∷ b ∷ c ∷ d ∷ []) = a ∷ b ∷ c ∷ d ∷ []
  four (a ∷ b ∷ c ∷ []) = a ∷ b ∷ c ∷ "" ∷ []
  four (a ∷ b ∷ []) = a ∷ b ∷ "" ∷ "" ∷ []
  four (a ∷ []) = a ∷ "" ∷ "" ∷ "" ∷ []
  four [] = "" ∷ "" ∷ "" ∷ "" ∷ []
  four (a ∷ b ∷ c ∷ d ∷ e ∷ more) = a ∷ b ∷ c ∷ d ∷ []

  -- firstSkill, over the order of the range
  abbrev pub first_skill : List String → String
  first_skill [] = ""
  first_skill (id ∷ _) = id

  abbrev or_generic : List String → List String → List String
  or_generic range [] = first_skill range ∷ []
  or_generic range (id ∷ ids) = id ∷ ids

  abbrev first_ability : List PassiveAbility → PassiveAbility
  first_ability [] = no_ability
  first_ability (a ∷ _) = a

  abbrev pub instance_at : ℤ → ℤ → List String → Species → Instance
  instance_at dex_id level range sp = record zero_instance {
    dex_id = dex_id;
    level = level;
    ability = first_ability sp.abilities;
    skill_ids = four (or_generic range (learned level 4 sp.learnset));
    ivs = uniform (pos 31);
    nature = record { name = "Hardy"; up = "atk"; down = "atk" };
  }

  abbrev built : Option Species → ℤ → ℤ → List String → Option Battler
  built none dex_id level range = none
  built (some sp) dex_id level range = some (new_battler fl sp (instance_at dex_id level range sp))

  unfoldable pub build_battler : Dex F → ℤ → ℤ → List String → Option Battler
  build_battler dex dex_id level range = built (dex.species dex_id) dex_id level range

abbrev pub instances_of : Side → List Instance
instances_of s = map (λ (b : Battler). b.inst) s.party
