-- ===== src/Session/Verified.antt =====
-- A session of services/battle/internal/netcode from its start to any point.
use pokecatch.Prelude.{ℕ, ◌≡◌, refl, subst, true, String, none, some, List, arith, ◌⊎◌}
use pokecatch.Prelude.Float.{Float64, ScalesNonneg}
use pokecatch.Prelude.Outcome.{ok}
use pokecatch.Prelude.Partial.{Returns}
use pokecatch.Creatures.Model.{Dex, Instance}
use pokecatch.Engine.Battle.Exchange.{Env}
use pokecatch.Engine.Battle.{Side, new_battle}
use pokecatch.Engine.Battle.Safety.{IsReady}
use pokecatch.Engine.Battle.Digest.{digest}
use pokecatch.Persistence.{MatchRecord, replay_turns, replay, verify, build_side}
use pokecatch.Persistence.Total.{IsEntered, build_side-ok, new_battle-IsSafe, new_battle-IsRunning}
use pokecatch.Session.{Session, Input, start, run}
use pokecatch.Session.Recorded.{IsRecorded, begin_turn-IsRecorded, run-Returns}

-- The record that the observers of a session make of it.
abbrev pub record_of : String → String → ℕ → List Instance → List Instance → Session → MatchRecord
record_of match_id mode seed team_a team_b s = record {
  match_id = match_id;
  mode = mode;
  seed = seed;
  team_a = team_a;
  team_b = team_b;
  turns = s.on_turn;
  winner = s.battle.winner;
  final_digest = digest s.battle;
}

module _ {fl : Float64} (env : Env fl) (dex : Dex fl.F) where
  module _ (law : ScalesNonneg fl) where
    pub start-IsRecorded :
        (seed : ℕ) (player_a player_b : String) (a b : Side)
        → IsReady a
        → IsReady b
        → IsRecorded env dex law (new_battle seed a b) (start seed player_a player_b a b)
    unfolding start replay_turns
    start-IsRecorded seed player_a player_b a b h k =
        begin_turn-IsRecorded env dex law (new_battle seed a b) _ refl
          (new_battle-IsSafe env dex seed a b h k) (new_battle-IsRunning env dex seed a b) refl

    -- If a non-negative int times a positive double truncates to a non-negative int, and a
    -- session starts on the sides that buildSide makes of two teams that are not empty and hold
    -- creatures of species of the catalogue with non-negative base hit points, IVs, EVs and
    -- levels, then whatever submissions, timeouts and cancellation it receives, it never panics;
    -- the record of the turns it reported, stamped with the winner and the digest of its battle,
    -- passes Verify; and an end is reported only for a battle that is over, with that winner and
    -- digest.
    pub session_verifies :
        (match_id mode : String) (seed : ℕ) (player_a player_b : String)
        (team_a team_b : List Instance) (a b : Side) (inputs : List Input)
        → IsEntered env dex team_a
        → IsEntered env dex team_b
        → build_side env dex "A" team_a ≡ ok a
        → build_side env dex "B" team_b ≡ ok b
        → Returns
            (λ s.
              (verify env dex (record_of match_id mode seed team_a team_b s) ≡ some (ok true))
              × ((s.on_end ≡ none)
                  ⊎ ((s.battle.over ≡ true)
                      × (s.on_end ≡ some (s.battle.winner, digest s.battle)))))
            (run env inputs (start seed player_a player_b a b))
    unfolding verify replay
    session_verifies match_id mode seed player_a player_b team_a team_b a b inputs ha hb ea eb =
        let (a', fa, ready_a) = build_side-ok env dex "A" team_a ha in
        let (b', fb, ready_b) = build_side-ok env dex "B" team_b hb in
        let same_a : a' ≡ a = ground (arith, ea, fa) in
        let same_b : b' ≡ b = ground (arith, eb, fb) in
        let origin = new_battle seed a b in
        let (s, e, h) = run-Returns env dex law origin inputs (start seed player_a player_b a b) (
          start-IsRecorded seed player_a player_b a b (subst IsReady same_a ready_a)
            (subst IsReady same_b ready_b)) in
        let again = h.replayed in (s, e, (ground (arith, ea, eb, again), h.stamped))
