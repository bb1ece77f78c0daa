-- ===== src/Persistence.antt =====
-- services/battle/internal/persistence: match records and their replay.
pub mod Total
pub mod Tests
use pokecatch.Prelude.{
  ℕ, String, Bool, ◌&&◌, Option, none, some, List, [], ◌∷◌, ◌++◌, ◌==◌, if◌then◌else◌,
}
use pokecatch.Prelude.Int.{ℤ, pos, eq_ℤ}
use pokecatch.Prelude.Float.{Float64}
use pokecatch.Prelude.Outcome.{Result, ok, err}
use pokecatch.Prelude.Partial.{◌>>=◌}
use pokecatch.Creatures.Model.{Instance, Species, Dex}
use pokecatch.Engine.Battler.{Battler, new_battler}
use pokecatch.Engine.Battle.Exchange.{Env, Event, MoveAction}
use pokecatch.Engine.Battle.{Side, Battle, TurnError, new_battle, resolve_turn}
use pokecatch.Engine.Battle.Digest.{digest}

pub record TurnRecord : Type 0 where
  pub first_action : MoveAction
  pub second_action : MoveAction

pub record MatchRecord : Type 0 where
  pub match_id : String
  pub mode : String
  pub seed : ℕ
  pub team_a : List Instance
  pub team_b : List Instance
  pub turns : List TurnRecord
  pub winner : ℤ
  pub final_digest : ℕ

-- Recorder
unfoldable pub new_recorder : String → String → ℕ → List Instance → List Instance → MatchRecord
new_recorder match_id mode seed team_a team_b = record {
  match_id = match_id;
  mode = mode;
  seed = seed;
  team_a = team_a;
  team_b = team_b;
  turns = [];
  winner = pos 0;
  final_digest = 0;
}

unfoldable pub record_turn : MatchRecord → TurnRecord → MatchRecord
record_turn rec turn = record rec { turns = rec.turns ++ turn ∷ [] }

unfoldable pub finish : MatchRecord → ℤ → ℕ → MatchRecord
finish rec winner final_digest = record rec { winner = winner; final_digest = final_digest }

pub data ReplayError : Type 0 where
  unknown_species : ℤ → ReplayError
  turn_failed : TurnError → ReplayError

-- The winner, the digest and the turns played.
pub record Outcome : Type 0 where
  pub winner : ℤ
  pub final_digest : ℕ
  pub turns : ℕ

abbrev pub with_first :
    Battler → Result ReplayError (List Battler) → Result ReplayError (List Battler)
with_first b (ok bs) = ok (b ∷ bs)
with_first b (err e) = err e

abbrev pub side_with : String → Result ReplayError (List Battler) → Result ReplayError Side
side_with id (ok party) = ok (record { player_id = id; party = party; active = 0 })
side_with id (err e) = err e

module _ {fl : Float64} (env : Env fl) (dex : Dex fl.F) where
  -- The loop of buildSide.
  abbrev pub build_party : List Instance → Result ReplayError (List Battler)
  build_party [] = ok []
  build_party (inst ∷ team) = elim (dex.species inst.dex_id) [
    | none ↦ err (unknown_species inst.dex_id)
    | some sp ↦ with_first (new_battler fl sp inst) (build_party team)
  ]

  unfoldable pub build_side : String → List Instance → Result ReplayError Side
  build_side id team = side_with id (build_party team)

  -- The battle after a turn, or its error.
  abbrev pub after_turn : Result TurnError (List Event) × Battle → Result ReplayError Battle
  after_turn (ok events, bt) = ok bt
  after_turn (err e, bt) = err (turn_failed e)

  -- The loop of Replay.
  unfoldable pub replay_turns : List TurnRecord → Battle → Option (Result ReplayError Battle)
  replay_turns [] bt = some (ok bt)
  replay_turns (t ∷ ts) bt = if bt.over then some (ok bt) else (do
    r ← resolve_turn env bt t.first_action t.second_action
    elim (after_turn r) [ err e ↦ some (err e) | ok bt' ↦ replay_turns ts bt' ])

  abbrev pub outcome_of : Result ReplayError Battle → Result ReplayError Outcome
  outcome_of (err e) = err e
  outcome_of (ok bt) = ok (record { winner = bt.winner; final_digest = digest bt; turns = bt.turn })

  -- Replay, once the sides are built.
  abbrev pub replay_between :
      MatchRecord
      → Result ReplayError Side
      → Result ReplayError Side
      → Option (Result ReplayError Outcome)
  replay_between rec (err e) b = some (err e)
  replay_between rec (ok a) (err e) = some (err e)
  replay_between rec (ok a) (ok b) = do
    r ← replay_turns rec.turns (new_battle rec.seed a b)
    some (outcome_of r)

  unfoldable pub replay : MatchRecord → Option (Result ReplayError Outcome)
  replay rec = replay_between rec (build_side "A" rec.team_a) (build_side "B" rec.team_b)

  abbrev pub agrees : MatchRecord → Result ReplayError Outcome → Result ReplayError Bool
  agrees rec (err e) = err e
  agrees rec (ok o) = ok (eq_ℤ o.winner rec.winner && o.final_digest == rec.final_digest)

  unfoldable pub verify : MatchRecord → Option (Result ReplayError Bool)
  verify rec = do r ← replay rec; some (agrees rec r)
