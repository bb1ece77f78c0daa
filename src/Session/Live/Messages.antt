-- ===== src/Session/Live/Messages.antt =====
-- What the messages of services/battle/internal/netcode/broadcast.go tell each receiver: that they do
-- not panic on a safe battle, and how many turns and ends they announce.
use pokecatch.Prelude.{
  ℕ, suc, ◌+◌, ◌≡◌, refl, ◌⊎◌, inl, inr, String, Bool, true, false, Option, none, some, List, [],
  ◌∷◌, ◌++◌, length, arith, str_eq, str_eq_refl, eq_iff, Bool-cases, if◌then◌else◌, ◌&&◌,
}
use pokecatch.Prelude.Float.{Float64}
use pokecatch.Prelude.Int.{ℤ}
use pokecatch.Prelude.Partial.{Returns}
use pokecatch.Engine.Battle.Exchange.{Env, Event, Seat, first, second}
use pokecatch.Engine.Battle.{Battle}
use pokecatch.Engine.Battle.Safety.{IsSafe, active_battler-Returns}
use pokecatch.Session.{Session, begin_turn}
use pokecatch.Session.Broadcast.{
  StateSnapshot, view, bench, Receiver, player, spectators, Sent, snapshot, turn_messages,
  state_messages, broadcast_turn, broadcast_state, broadcast_end,
}
use pokecatch.Session.Live.{Live, top_messages}

abbrev same_receiver : Receiver → Receiver → Bool
same_receiver (player a) (player b) = str_eq a b
same_receiver (player a) spectators = false
same_receiver spectators (player b) = false
same_receiver spectators spectators = true

-- How many messages of a type a receiver was sent.
abbrev pub sent_count : Receiver → String → List Sent → ℕ
sent_count to kind [] = 0
sent_count to kind (m ∷ ms) =
    if same_receiver to m.receiver && str_eq m.message.kind kind
    then suc (sent_count to kind ms)
    else sent_count to kind ms

abbrev pub ends : Option (ℤ × ℕ) → ℕ
ends none = 0
ends (some e) = 1

-- Every turn that the session reported was announced once, and its end once if it reported one.
pub record IsTold (to : Receiver) (l : Live) : Type 0 where
  pub turns : sent_count to "turn" l.outbox ≡ length l.session.on_turn
  pub end : sent_count to "end" l.outbox ≡ ends l.session.on_end

-- One of the two players, or the spectators.
abbrev pub IsAudience : Receiver → Session → Type 0
IsAudience to s = (to ≡ player s.player_a) ⊎ (to ≡ player s.player_b) ⊎ (to ≡ spectators)

pub sent_count-append :
    (to : Receiver) (kind : String) (xs ys : List Sent)
    → sent_count to kind (xs ++ ys) ≡ sent_count to kind xs + sent_count to kind ys
sent_count-append to kind [] ys = omega arith
sent_count-append to kind (m ∷ ms) ys = ground (arith, sent_count-append to kind ms ys)

pub snapshot-some :
    (bt : Battle) (seat : Seat)
    → IsSafe bt
    → (shown : StateSnapshot) × (snapshot bt seat ≡ some shown)
unfolding snapshot
snapshot-some bt seat safe =
    let (a, e, _) = active_battler-Returns bt.side_a (safe first) in
    let (b, f, _) = active_battler-Returns bt.side_b (safe second) in
    (
      record {
        active_a = view a;
        active_b = view b;
        bench_a = bench bt.side_a;
        bench_b = bench bt.side_b;
        your_side = seat;
      },
      rw (e, f) refl,
    )

module _ (session_id : String) (s : Session) (to : Receiver) (at : IsAudience to s)
    (apart : str_eq s.player_a s.player_b ≡ false) where
  gets : Receiver → Bool
  gets r = same_receiver to r

  -- Of three messages to the two players and the spectators the audience gets one.
  one_of_three :
      ((gets (player s.player_a) ≡ true)
        × (gets (player s.player_b) ≡ false)
        × (gets spectators ≡ false))
      ⊎ ((gets (player s.player_a) ≡ false)
          × (gets (player s.player_b) ≡ true)
          × (gets spectators ≡ false))
      ⊎ ((gets (player s.player_a) ≡ false)
          × (gets (player s.player_b) ≡ false)
          × (gets spectators ≡ true))
  unfolding gets
  one_of_three = elim at [
    | inl e ↦ inl (rw e (str_eq_refl s.player_a, apart, refl))
    | inr rest ↦ elim rest [
      | inl e ↦ inr (
          inl (
            rw e (
              ground (arith, apart, eq_iff s.player_a s.player_b, eq_iff s.player_b s.player_a),
              str_eq_refl s.player_b,
              refl,
            )))
      | inr e ↦ inr (inr (rw e (refl, refl, refl)))
    ]
  ]

  pub turn_once :
      (events : List Event)
      → IsSafe s.battle
      → Returns
          (λ sent. (sent_count to "turn" sent ≡ 1) × (sent_count to "end" sent ≡ 0))
          (broadcast_turn session_id s events)
  unfolding gets
  turn_once events safe =
      let (a, e) = snapshot-some s.battle first safe in
      let (b, f) = snapshot-some s.battle second safe in
      (
        turn_messages session_id s events a b,
        rw (e, f) refl,
        (ground (arith, one_of_three), ground arith),
      )

  pub end_once :
      (sent_count to "turn" (broadcast_end session_id s) ≡ 0)
      × (sent_count to "end" (broadcast_end session_id s) ≡ 1)
  unfolding gets
  end_once = (ground arith, ground (arith, one_of_three))

  -- At the match's start the players hear of no turn and no end.
  pub start_none :
      IsSafe s.battle
      → Returns
          (λ sent. (sent_count to "turn" sent ≡ 0) × (sent_count to "end" sent ≡ 0))
          (broadcast_state session_id s "match_start")
  start_none safe =
      let (a, e) = snapshot-some s.battle first safe in
      let (b, f) = snapshot-some s.battle second safe in
      (state_messages session_id s "match_start" a b, rw (e, f) refl, ground arith)

-- The messages tell the audience of the turns and the end that are reported beyond `s`.
pub record IsAnnounced (s : Session) (to : Receiver) (l : Live) : Type 0 where
  pub turns : sent_count to "turn" l.outbox + length s.on_turn ≡ length l.session.on_turn
  pub end : sent_count to "end" l.outbox + ends s.on_end ≡ ends l.session.on_end
  pub same_a : l.session.player_a ≡ s.player_a
  pub same_b : l.session.player_b ≡ s.player_b

pub silent-IsAnnounced :
    (s : Session) (to : Receiver) (t : Session)
    → t.on_turn ≡ s.on_turn
    → t.on_end ≡ s.on_end
    → t.player_a ≡ s.player_a
    → t.player_b ≡ s.player_b
    → IsAnnounced s to (record { session = t; outbox = [] })
silent-IsAnnounced s to t e f p q = record {
  turns = rw e (omega arith);
  end = rw f (omega arith);
  same_a = p;
  same_b = q;
}

module _ {fl : Float64} (env : Env fl) (session_id : String) (s : Session) (to : Receiver)
    (at : IsAudience to s) (apart : str_eq s.player_a s.player_b ≡ false) where
  -- The top of the loop announces what begin_turn reports.
  pub top_reports :
      s.on_end ≡ none
      → (sent_count to "turn" (top_messages env session_id s) ≡ 0)
        × (sent_count to "end" (top_messages env session_id s) ≡ ends (begin_turn s).on_end)
  unfolding begin_turn
  top_reports quiet = elim (Bool-cases s.battle.over) [
    | inl o ↦ let (none_, one) = end_once session_id s to at apart in rw o (none_, one)
    | inr o ↦ rw (o, quiet) (refl, refl)
  ]

pub begin_turn-keeps :
    (s : Session)
    → ((begin_turn s).on_turn ≡ s.on_turn)
      × ((begin_turn s).player_a ≡ s.player_a)
      × ((begin_turn s).player_b ≡ s.player_b)
unfolding begin_turn
begin_turn-keeps s = elim (Bool-cases s.battle.over) [
  | inl o ↦ rw o (refl, refl, refl)
  | inr o ↦ rw o (refl, refl, refl)
]
