-- ===== src/Session/Tests.antt =====
-- A run of the session of services/battle/internal/netcode.
use pokecatch.Prelude.{◌≡◌, ◌⊎◌, refl, subst, true, none, some, List, [], ◌∷◌, arith}
use pokecatch.Prelude.Int.{pos}
use pokecatch.Prelude.Float.{fixed_point, fixed_point-ScalesNonneg}
use pokecatch.Prelude.Outcome.{ok}
use pokecatch.Prelude.Partial.{Returns}
use pokecatch.Creatures.Model.{Instance}
use pokecatch.Creatures.Samples.{sprout, young_sprout, two_species}
use pokecatch.Engine.Battler.{Battler, new_battler}
use pokecatch.Engine.Battle.Exchange.{Env, second, act_move, act_switch}
use pokecatch.Engine.Battle.{Side}
use pokecatch.Engine.Battle.Digest.{digest}
use pokecatch.Persistence.{verify, build_side}
use pokecatch.Persistence.Total.{IsEntered, build_side-ok}
use pokecatch.Engine.Battle.Safety.{IsReady}
use pokecatch.Session.{Input, timeout, submit, start, run}
use pokecatch.Types.{Stats}
use pokecatch.Engine.Tests.{fighter, team as bench_team, arena_battle, arena-IsSafe}
use pokecatch.Session.Broadcast.{StateSnapshot, snapshot}
use pokecatch.Session.Broadcast.Redacted.{
  LooksAlike, Discloses, new_battler-AreAlike, snapshot_redacts,
}
use pokecatch.Session.Verified.{record_of, session_verifies}

abbrev pub arena : Env fixed_point
arena = record { registry = some two_species.skills }

abbrev pub team : List Instance
team = young_sprout ∷ []

abbrev pub side : Side
side = record {
  player_id = "A";
  party = new_battler fixed_point sprout young_sprout ∷ [];
  active = 0;
}

abbrev pub other_side : Side
other_side = record side { player_id = "B" }

-- Ann attacks, Bob sends an illegal switch, then both are silent.
abbrev pub inputs : List Input
inputs =
    submit "ann" (record {
      action = record { kind = act_move; skill_slot = pos 0; switch_to = pos 0 };
      seq = 1;
    })
    ∷ submit "bob" (record {
      action = record { kind = act_switch; skill_slot = pos 0; switch_to = pos 9 };
      seq = 1;
    })
    ∷ timeout
    ∷ []

pub team-IsEntered : IsEntered arena two_species team
team-IsEntered = record { some_one = omega arith; fielded = ((sprout, refl, omega arith), tt) }

pub side_built : build_side arena two_species "A" team ≡ ok side
unfolding build_side
side_built = refl

pub other_side_built : build_side arena two_species "B" team ≡ ok other_side
unfolding build_side
other_side_built = refl

session_verifies_example :
    Returns
      (λ s.
        (verify arena two_species (record_of "m1" "ranked" 42 team team s) ≡ some (ok true))
        × ((s.on_end ≡ none)
            ⊎ ((s.battle.over ≡ true) × (s.on_end ≡ some (s.battle.winner, digest s.battle)))))
      (run arena inputs (start 42 "ann" "bob" side other_side))
session_verifies_example =
    session_verifies arena two_species fixed_point-ScalesNonneg "m1" "ranked" 42 "ann" "bob" team
      team side other_side inputs team-IsEntered team-IsEntered side_built other_side_built

abbrev zero_stats : Stats
zero_stats = record {
  hp = pos 0;
  attack = pos 0;
  defense = pos 0;
  sp_attack = pos 0;
  sp_defense = pos 0;
  speed = pos 0;
}

-- The same creature with other IVs but for the hit points', and in a battle for some turns
abbrev poor_sprout : Instance
poor_sprout = record young_sprout { ivs = record zero_stats { hp = young_sprout.ivs.hp } }

abbrev hidden : Battler
hidden = record (new_battler fixed_point sprout poor_sprout) {
  cooldowns = pos 3 ∷ [];
  flinched = true;
  status_ctr = pos 4;
}

abbrev look_alikes : Side
look_alikes = record bench_team { party = hidden ∷ fighter ∷ [] }

look_alikes-LooksAlike : LooksAlike bench_team look_alikes
look_alikes-LooksAlike =
    let alike = new_battler-AreAlike fixed_point sprout young_sprout in
    (
      refl,
      (
        alike poor_sprout refl refl refl refl refl,
        (alike young_sprout refl refl refl refl refl, _),
      ),
    )

snapshot_redacts_example :
    (shown : StateSnapshot) × (snapshot arena_battle second ≡ some shown)
    × (snapshot (record arena_battle { side_a = look_alikes; side_b = look_alikes; rng = 7 }) second
        ≡ some shown)
    × Discloses bench_team shown.active_a
    × Discloses bench_team shown.active_b
snapshot_redacts_example =
    snapshot_redacts arena_battle
      (record arena_battle { side_a = look_alikes; side_b = look_alikes; rng = 7 }) second
      arena-IsSafe look_alikes-LooksAlike look_alikes-LooksAlike

pub side-IsReady : IsReady side
side-IsReady =
    let (s, e, ready) = build_side-ok arena two_species "A" team team-IsEntered in
    let same : s ≡ side = ground (arith, e, side_built) in subst IsReady same ready
