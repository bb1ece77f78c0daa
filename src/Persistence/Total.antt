-- ===== src/Persistence/Total.antt =====
-- Replay and Verify of services/battle/internal/persistence.
use pokecatch.Prelude.{
  ℕ, ◌<◌, ◌≡◌, refl, false, some, List, [], ◌∷◌, arith, All, length, Bool-cases, inl, inr, String,
  ◌==◌, ◌&&◌,
}
use pokecatch.Prelude.Int.{ℤ, eq_ℤ}
use pokecatch.Prelude.Float.{Float64, ScalesNonneg}
use pokecatch.Prelude.Outcome.{ok}
use pokecatch.Prelude.Partial.{Returns}
use pokecatch.Creatures.Model.{Instance, Species, Dex}
use pokecatch.Engine.Battler.{Battler, new_battler}
use pokecatch.Engine.Battler.Bounds.{IsSound, IsGrown, new_battler_fit}
use pokecatch.Engine.Battle.Exchange.{Env, first, second}
use pokecatch.Engine.Battle.{Side, Battle, new_battle}
use pokecatch.Engine.Battle.Digest.{digest}
use pokecatch.Engine.Battle.Safety.{IsSafe, IsReady, IsRunning}
use pokecatch.Engine.Battle.Safety.Phases.{IsJudged-IsPlaying, still-IsRunning}
use pokecatch.Engine.Battle.Safety.Turn.{resolve_turn_safe}
use pokecatch.Persistence.{
  TurnRecord, MatchRecord, Outcome, build_party, build_side, replay_turns, replay, verify, finish,
}

module _ {fl : Float64} (env : Env fl) (dex : Dex fl.F) where
  -- A team of at least one creature, each of a species of the catalogue and of sensible numbers.
  abbrev pub IsFielded : Instance → Type 0
  IsFielded inst = (sp : Species) × (dex.species inst.dex_id ≡ some sp) × IsGrown sp inst

  pub record IsEntered (team : List Instance) : Type 0 where
    pub some_one : 0 < length team
    pub fielded : All IsFielded team

  build_party-ok :
      (team : List Instance)
      → All IsFielded team
      → (party : List Battler) × (build_party env dex team ≡ ok party)
        × (length party ≡ length team)
        × All IsSound party
  build_party-ok [] h = ([], refl, refl, tt)
  build_party-ok (inst ∷ team) ((sp, known, grown), h) =
      let (party, built, size, sound) = build_party-ok team h in
      (
        new_battler fl sp inst ∷ party,
        ground (arith, known, built),
        omega (arith, size),
        ((new_battler_fit fl sp inst grown).0, sound),
      )

  pub build_side-ok :
      (id : String) (team : List Instance)
      → IsEntered team
      → (s : Side) × (build_side env dex id team ≡ ok s) × IsReady s
  unfolding build_side
  build_side-ok id team h =
      let (party, built, size, sound) = build_party-ok team h.fielded in
      (
        record { player_id = id; party = party; active = 0 },
        rw built refl,
        record { in_range = omega (arith, size, h.some_one); sound = sound },
      )

  pub new_battle-IsSafe :
      (seed : ℕ) (a b : Side) → IsReady a → IsReady b → IsSafe (new_battle seed a b)
  unfolding new_battle
  new_battle-IsSafe seed a b h k first = h
  new_battle-IsSafe seed a b h k second = k

  pub new_battle-IsRunning :
      (seed : ℕ) (a b : Side) → (new_battle seed a b).over ≡ false → IsRunning (new_battle seed a b)
  unfolding new_battle
  new_battle-IsRunning seed a b o = record { going = refl; open_ = refl }

  module _ (law : ScalesNonneg fl) where
    replay_turns-Returns :
        (ts : List TurnRecord) (bt : Battle)
        → IsSafe bt
        → (bt.over ≡ false → IsRunning bt)
        → Returns (λ r. (bt' : Battle) × (r ≡ ok bt')) (replay_turns env dex ts bt)
    unfolding replay_turns
    replay_turns-Returns [] bt s r = (ok bt, refl, (bt, refl))
    replay_turns-Returns (t ∷ ts) bt s r = elim (Bool-cases bt.over) [
      | inl o ↦ (ok bt, simp (o, replay_turns) refl, (bt, refl))
      | inr o ↦
          let (out, e, turn) =
            resolve_turn_safe env law bt t.first_action t.second_action s (r o) in
          let (events, fine) = turn.answered in
          let bt' : Battle = out.1 in
          let (end, e', k) =
            replay_turns-Returns ts bt' turn.safe
              (still-IsRunning bt' (IsJudged-IsPlaying bt' turn.safe turn.judged)) in
          (end, ground (arith, o, e, fine, e'), k)
    ]

    replay-Returns :
        (rec : MatchRecord)
        → IsEntered rec.team_a
        → IsEntered rec.team_b
        → Returns (λ r. (o : Outcome) × (r ≡ ok o)) (replay env dex rec)
    unfolding replay
    replay-Returns rec ha hb =
        let (a, ea, ready_a) = build_side-ok "A" rec.team_a ha in
        let (b, eb, ready_b) = build_side-ok "B" rec.team_b hb in
        let start = new_battle rec.seed a b in
        let (r, e, (bt, fine)) =
          replay_turns-Returns rec.turns start (new_battle-IsSafe rec.seed a b ready_a ready_b)
            (new_battle-IsRunning rec.seed a b) in
        let o : Outcome = record {
          winner = bt.winner;
          final_digest = digest bt;
          turns = bt.turn;
        } in
        (ok o, ground (arith, ea, eb, e, fine), (o, refl))

    -- If a non-negative int times a positive double truncates to a non-negative int, and both
    -- teams of a record are not empty and hold creatures of species of the catalogue with
    -- non-negative base hit points, IVs, EVs and levels, then replaying whatever intents were
    -- recorded never panics and ends in an outcome, and Verify of the record under any stamped
    -- result answers whether that result is exactly the winner and the digest of the outcome.
    pub verify_exact :
        (rec : MatchRecord)
        → IsEntered rec.team_a
        → IsEntered rec.team_b
        → (o : Outcome) × (replay env dex rec ≡ some (ok o))
          × ((winner : ℤ) (final_digest : ℕ)
              → verify env dex (finish rec winner final_digest)
                ≡ some (ok (eq_ℤ o.winner winner && o.final_digest == final_digest)))
    unfolding verify replay finish
    verify_exact rec ha hb =
        let (r, e, (o, fine)) = replay-Returns rec ha hb in
        let here : replay env dex rec ≡ some (ok o) = ground (arith, e, fine) in
        (o, here, λ w d. ground (arith, here))
