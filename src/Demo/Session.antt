-- ===== src/Demo/Session.antt =====
-- What the session of services/battle/internal/netcode/session.go makes of the answer of a bot of
-- services/battle/cmd/demo/main.go to the message that begins a match or ends a turn.
use pokecatch.Prelude.{◌≡◌, ◌≢◌, ◌≤◌, refl, ◌⊎◌, String, Bool, true, none, some, [], length}
use pokecatch.Prelude.Int.{ℤ}
use pokecatch.Prelude.Float.{Float64}
use pokecatch.Creatures.Model.{Dex}
use pokecatch.Engine.Battler.{Battler, fainted}
use pokecatch.Engine.Battle.Exchange.{MoveAction, first}
use pokecatch.Engine.Battle.{Side, active_battler}
use pokecatch.Session.{Session, Intent, side_of, is_legal, accept_intent}
use pokecatch.Demo.{submits, usable, on_message}
use pokecatch.Demo.Legal.{decide-IsPlay}

abbrev pub intent_of : MoveAction → Intent
intent_of act = record { action = act; seq = 0 }

-- A legal first intent is kept as it came.
accept_intent-kept :
    (s : Session) (id : String) (act : MoveAction)
    → is_legal act ≡ true
    → s.pending_a ≡ none
    → side_of s id ≡ some first
    → (accept_intent id (intent_of act) s).pending_a ≡ some (intent_of act)
unfolding accept_intent
accept_intent-kept s id act legal free seat = rw (seat, free, legal) refl

module _ (fl : Float64) {R : Type 0} (chance : ℤ → R → Bool × R) where
  -- If both active indices are in range, the active battler has at most four skill slots, and it has
  -- fainted or has a skill of the catalogue, a bot answers the message of a turn with an action, and
  -- the session keeps just that action as the first intent of its first player.
  pub on_message-kept :
      (r : R) (self opp : Side) (dex : Dex fl.F) (a b : Battler) (s : Session) (id : String)
      → active_battler self ≡ some a
      → active_battler opp ≡ some b
      → length a.inst.skill_ids ≤ 4
      → (fainted a ≡ true) ⊎ (usable fl dex a ≢ [])
      → s.pending_a ≡ none
      → side_of s id ≡ some first
      → (act : MoveAction) × (r' : R) × (on_message fl chance r "turn" self opp dex
          ≡ some (submits act, r'))
        × ((accept_intent id (intent_of act) s).pending_a ≡ some (intent_of act))
  unfolding on_message
  on_message-kept r self opp dex a b s id ea eb four can free seat =
      let (out, e, (legal, _)) = decide-IsPlay fl chance r self opp dex a b ea eb four can in
      (out.0, out.1, rw e refl, accept_intent-kept s id out.0 legal free seat)
