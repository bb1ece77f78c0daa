-- ===== src/Engine/Battle.antt =====
-- services/battle/internal/engine/battle.go and registry.go: the turn loop. A side is one of two
-- seats. A function returns the state after it; `none` is the panic of an index out of range.
pub mod Actions
pub mod Exchange
pub mod Digest
pub mod Safety
use Prim.Native.String.{◌++◌ as str_append}
use pokecatch.Prelude.{
  ℕ, suc, map, ◌<◌, String, Bool, true, false, not, ◌&&◌, ◌||◌, Option, none, some, List, [], ◌∷◌,
  ◌++◌, get_elem?, set, length, ltb, ◌==◌, str_eq, if◌then◌else◌,
}
use pokecatch.Prelude.Int.{ℤ, pos, pos_part, negsuc, ◌+ℤ◌, ◌-ℤ◌, ltb_ℤ, leb_ℤ, eq_ℤ}
use pokecatch.Prelude.Float.{Float64}
use pokecatch.Prelude.Partial.{◌>>=◌}
use pokecatch.Prelude.Outcome.{Result, ok, err}
use pokecatch.Engine.Rng.{Rng, chance}
use pokecatch.Engine.Battler.{Battler, fainted, no_stages, eff_speed}
use pokecatch.Engine.Status.{end_of_turn_tick}
use Exchange.{
  Seat, first, second, other, Event, ActionKind, act_move, act_switch, unknown, MoveAction, Env,
  Duel, skill_for, exchange, event, named,
}

pub record Side : Type 0 where
  pub player_id : String
  pub party : List Battler
  pub active : ℕ

pub record Battle : Type 0 where
  pub rng : Rng
  pub side_a : Side
  pub side_b : Side
  pub turn : ℕ
  pub over : Bool
  -- 0 or 1 once a side has won, -1 before and in a draw
  pub winner : ℤ
  pub log : List Event

abbrev pub side_of : Battle → Seat → Side
side_of bt first = bt.side_a
side_of bt second = bt.side_b

abbrev pub with_side : Battle → Seat → Side → Battle
with_side bt first s = record bt { side_a = s }
with_side bt second s = record bt { side_b = s }

abbrev pub active_battler : Side → Option Battler
active_battler s = get_elem? s.party s.active

abbrev pub put_active : Side → Battler → Side
put_active s b = record s { party = set s.party s.active b }

has_usable_in : List Battler → Bool
has_usable_in [] = false
has_usable_in (b ∷ bs) = not (fainted b) || has_usable_in bs

unfoldable pub has_usable : Side → Bool
unfolding has_usable_in
has_usable s = has_usable_in s.party

unfoldable pub new_battle : ℕ → Side → Side → Battle
new_battle seed a b = record {
  rng = seed;
  side_a = a;
  side_b = b;
  turn = 0;
  over = false;
  winner = negsuc 0;
  log = [];
}

abbrev emit : Battle → Event → Battle
emit bt e = record bt { log = bt.log ++ e ∷ [] }

-- s.Party[to], for an index of the client's that may be out of range.
abbrev at_index : List Battler → ℤ → Option Battler
at_index party (pos n) = get_elem? party n
at_index party (negsuc n) = none

-- The legal switch of doSwitch.
pub switch_in : Battle → Seat → ℤ → Battler → Option Battle
switch_in bt seat to incoming = do
  out ← active_battler (side_of bt seat)
  some (
      emit
        (with_side bt seat
          (record (put_active (side_of bt seat)
            (record out { stages = no_stages; flinched = false })) { active = pos_part to }))
        (event "switch" seat (named incoming " enters the field")))

pub do_switch : Seat → ℤ → Battle → Option Battle
do_switch seat to bt = elim (at_index (side_of bt seat).party to) [
  | none ↦ some bt
  | some b ↦
      if fainted b || eq_ℤ to (pos (side_of bt seat).active)
      then some bt
      else switch_in bt seat to b
]

-- One round of phase 1.
pub switch_by : ActionKind → Seat → ℤ → Battle → Option Battle
switch_by act_switch seat to bt = do_switch seat to bt
switch_by act_move seat to bt = some bt
switch_by unknown seat to bt = some bt

pub switch_phase : Seat → MoveAction → Battle → Option Battle
switch_phase seat act bt = switch_by act.kind seat act.switch_to bt

-- checkVictory
abbrev ended : Battle → ℤ → Battle
ended bt winner =
    emit (record bt { over = true; winner = winner }) (event "end" first "battle concluded")

unfoldable pub check_victory : Battle → Battle
unfolding has_usable
check_victory bt =
    let a = has_usable bt.side_a in
    let b = has_usable bt.side_b in
    if not a && not b
    then ended bt (negsuc 0)
    else if not a
    then ended bt (pos 1)
    else if not b
    then ended bt (pos 0)
    else bt

abbrev tick_cooldown : ℤ → ℤ
tick_cooldown c = if ltb_ℤ (pos 0) c then c -ℤ pos 1 else c

unfoldable pub tick_cooldowns : Battler → Battler
tick_cooldowns b = record b { cooldowns = map tick_cooldown b.cooldowns }

pub tick_active : Seat → Battle → Option Battle
unfolding tick_cooldowns
tick_active seat bt = do
  b ← active_battler (side_of bt seat)
  some (with_side bt seat (put_active (side_of bt seat) (tick_cooldowns b)))

-- One round of endOfTurn.
abbrev tick_events : Seat → ℤ → Battler → List Event
tick_events seat d b =
    (if eq_ℤ d (pos 0)
      then []
      else record {
        kind = if ltb_ℤ (pos 0) d then "residual-heal" else "residual-damage";
        side = seat;
        text = b.species.name;
        amount = d;
      }
        ∷ [])
    ++ (if fainted b then event "faint" seat (named b " fainted") ∷ [] else [])

pub end_of_turn_side : Seat → Battle → Option Battle
end_of_turn_side seat bt = do
  b ← active_battler (side_of bt seat)
  let t = end_of_turn_tick b
  some (record (with_side bt seat (put_active (side_of bt seat) t.1)) {
    log = bt.log ++ tick_events seat t.0 t.1;
  })

-- The battle after an attack by `seat`.
abbrev write_back : Seat → Duel → Battle → Battle
write_back seat x bt =
    record (with_side (with_side bt (other seat) (put_active (side_of bt (other seat)) x.defender))
      seat (put_active (side_of bt seat) x.attacker)) { rng = x.rng; log = x.log }

pub data TurnError : Type 0 where
  battle_over : TurnError

module _ {fl : Float64} (env : Env fl) where
  unfoldable pub priority_of : MoveAction → Battler → ℤ
  priority_of act b = elim act.kind [
    | act_move ↦
        if ltb_ℤ act.skill_slot (pos 0) || leb_ℤ (pos 4) act.skill_slot
        then pos 0
        else elim (skill_for env b act.skill_slot) [ none ↦ pos 0 | some sk ↦ sk.priority ]
    | _ ↦ pos 6
  ]

  -- Who acts first, and the generator after the tie break.
  abbrev faster : Rng → Battler → Battler → Seat × Rng
  faster r a b =
      let sa = eff_speed fl a in
      let sb = eff_speed fl b in
      if fl.lt sa sb
      then (second, r)
      else if fl.eq sb sa
      then (let (flip, r') = chance (pos 50) r in (if flip then second else first, r'))
      else (first, r)

  pub move_order : MoveAction → MoveAction → Battler → Battler → Rng → Seat × Rng
  unfolding priority_of
  move_order act_a act_b a b r =
      let pa = priority_of act_a a in
      let pb = priority_of act_b b in
      if eq_ℤ pa pb then faster r a b else (if ltb_ℤ pa pb then second else first, r)

  -- executeMove
  pub execute_move : Seat → ℤ → Battle → Option Battle
  execute_move seat slot bt = do
    a ← active_battler (side_of bt seat)
    d ← active_battler (side_of bt (other seat))
    some (
        write_back seat
          (exchange env seat slot
            (record { rng = bt.rng; attacker = a; defender = d; log = bt.log }))
          bt)

  -- One round of phase 2: the move, if the action is one and the battler stands, and the test for
  -- the end.
  pub act_by : ActionKind → Seat → ℤ → Battle → Option Battle
  act_by act_move seat slot bt = do
    b ← active_battler (side_of bt seat)
    if fainted b then some bt else (do bt' ← execute_move seat slot bt; some (check_victory bt'))
  act_by act_switch seat slot bt = some bt
  act_by unknown seat slot bt = some bt

  pub act_phase : Seat → MoveAction → Battle → Option Battle
  act_phase seat act bt = act_by act.kind seat act.skill_slot bt

  abbrev action_of : MoveAction → MoveAction → Seat → MoveAction
  action_of act_a act_b first = act_a
  action_of act_a act_b second = act_b

  -- Phases 2 and 3 in the order of the turn.
  pub fight : Seat → MoveAction → MoveAction → Battle → Option Battle
  fight lead act_a act_b bt = do
    bt1 ← act_phase lead (action_of act_a act_b lead) bt
    if bt1.over then some bt1 else act_phase (other lead) (action_of act_a act_b (other lead)) bt1

  pub residuals : Seat → Battle → Option Battle
  residuals lead bt = if bt.over then some bt else (do
    bt1 ← end_of_turn_side lead bt
    bt2 ← end_of_turn_side (other lead) bt1
    some (check_victory bt2))

  -- A turn on a battle that is not over.
  pub play_turn : MoveAction → MoveAction → Battle → Option Battle
  play_turn act_a act_b bt = do
    bt1 ← switch_phase first act_a (record bt { turn = suc bt.turn })
    bt2 ← switch_phase second act_b bt1
    a ← active_battler bt2.side_a
    b ← active_battler bt2.side_b
    let lead = move_order act_a act_b a b bt2.rng
    bt3 ← fight lead.0 act_a act_b (record bt2 { rng = lead.1 })
    bt4 ← residuals lead.0 bt3
    bt5 ← tick_active first bt4
    tick_active second bt5

  -- ResolveTurn; DrainLog empties the log.
  pub resolve_turn :
      Battle → MoveAction → MoveAction → Option (Result TurnError (List Event) × Battle)
  resolve_turn bt act_a act_b =
      if bt.over
      then some (err battle_over, bt)
      else (do bt' ← play_turn act_a act_b bt; some (ok bt'.log, record bt' { log = [] }))
