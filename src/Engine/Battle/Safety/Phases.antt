-- ===== src/Engine/Battle/Safety/Phases.antt =====
-- Each phase of a turn returns and keeps the battle safe.
use pokecatch.Prelude.{
  ◌∙◌, sym, ◌≡◌, refl, ◌⊎◌, inl, inr, Bool, true, false, ◌||◌, get_elem?-lt, length-set, some, List,
  [], ◌∷◌, ◌++◌, arith, Bool-cases, Option-cases,
}
use pokecatch.Prelude.Int.{ℤ, pos, negsuc, eq_ℤ}
use pokecatch.Prelude.Partial.{Returns}
use pokecatch.Engine.Battler.{Battler, fainted, no_stages}
use pokecatch.Engine.Battler.Bounds.{IsSound, no_stages-IsStageBlock}
use pokecatch.Engine.Battle.Exchange.{
  Event, event, named, Seat, first, second, Duel, MoveAction, ActionKind, act_move, act_switch,
  unknown,
}
use pokecatch.Engine.Battle.Exchange.Bounds.{BothSound}
use pokecatch.Engine.Battle.{
  switch_by, Side, Battle, side_of, with_side, put_active, has_usable, do_switch, switch_in,
  at_index, switch_phase, check_victory, tick_active, tick_cooldowns, write_back,
}
use pokecatch.Engine.Battle.Safety.{
  IsReady, IsSafe, active_battler-Returns, put_active-IsReady, with_side-IsSafe, judge, IsJudged,
  IsRunning, has_usable-put_active,
}

-- Safe, and over only by the verdict.
pub record IsPlaying (bt : Battle) : Type 0 where
  pub safe : IsSafe bt
  pub state : IsRunning bt ⊎ ((bt.over ≡ true) × IsJudged bt)

pub check_victory-IsJudged : (bt : Battle) → IsRunning bt → IsJudged (check_victory bt)
unfolding check_victory
check_victory-IsJudged bt h = elim (Bool-cases (has_usable bt.side_a)) [
  | inl a ↦ elim (Bool-cases (has_usable bt.side_b)) [
    | inl b ↦ record { over = ground (arith, h); winner = ground (arith, h) }
    | inr b ↦ record { over = ground (arith, h); winner = ground (arith, h) }
  ]
  | inr a ↦ elim (Bool-cases (has_usable bt.side_b)) [
    | inl b ↦ record { over = ground (arith, h); winner = ground (arith, h) }
    | inr b ↦ record { over = ground (arith, h); winner = ground (arith, h) }
  ]
]

side_of-check_victory :
    (bt : Battle) (seat : Seat) → side_of (check_victory bt) seat ≡ side_of bt seat
unfolding check_victory
side_of-check_victory bt first = ground arith
side_of-check_victory bt second = ground arith

pub check_victory-IsSafe : (bt : Battle) → IsSafe bt → IsSafe (check_victory bt)
check_victory-IsSafe bt h seat = rw (side_of-check_victory bt seat) (h seat)

pub write_back-IsSafe :
    (seat : Seat) (x : Duel) (bt : Battle) → IsSafe bt → BothSound x → IsSafe (write_back seat x bt)
write_back-IsSafe first x bt h k first = put_active-IsReady _ _ (h first) k.attacker
write_back-IsSafe first x bt h k second = put_active-IsReady _ _ (h second) k.defender
write_back-IsSafe second x bt h k first = put_active-IsReady _ _ (h first) k.defender
write_back-IsSafe second x bt h k second = put_active-IsReady _ _ (h second) k.attacker

-- The verdict fields are as they were.
abbrev pub SameVerdict : Battle → Battle → Type 0
SameVerdict bt b = (b.over ≡ bt.over) × (b.winner ≡ bt.winner)

pub with_side-SameVerdict :
    (bt : Battle) (seat : Seat) (s : Side) → SameVerdict bt (with_side bt seat s)
with_side-SameVerdict bt first s = (refl, refl)
with_side-SameVerdict bt second s = (refl, refl)

pub write_back-SameVerdict :
    (seat : Seat) (x : Duel) (bt : Battle) → SameVerdict bt (write_back seat x bt)
write_back-SameVerdict first x bt = (refl, refl)
write_back-SameVerdict second x bt = (refl, refl)

pub running : (bt b : Battle) → SameVerdict bt b → IsRunning bt → IsRunning b
running bt b s h = record { going = s.0 ∙ h.going; open_ = s.1 ∙ h.open_ }

pub IsJudged-IsPlaying : (bt : Battle) → IsSafe bt → IsJudged bt → IsPlaying bt
IsJudged-IsPlaying bt s j = elim (Bool-cases bt.over) [
  | inl e ↦ record { safe = s; state = inr (e, j) }
  | inr e ↦ record {
    safe = s;
    state = inl (record {
      going = e;
      open_ = open_ (has_usable bt.side_a) (has_usable bt.side_b) (sym j.over ∙ e) j.winner;
    });
  }
]
  where
    open_ : (a b : Bool) {w : ℤ} → (judge a b).0 ≡ false → w ≡ (judge a b).1 → w ≡ negsuc 0
    open_ true true e w = w
    open_ true false e w = cc
    open_ false true e w = cc
    open_ false false e w = w

pub still-IsRunning : (bt : Battle) → IsPlaying bt → bt.over ≡ false → IsRunning bt
still-IsRunning bt p o = elim p.state [ inl r ↦ r | inr (q, _) ↦ absurd (cc (q, o)) ]

pub settled : (bt : Battle) → IsPlaying bt → bt.over ≡ true → IsJudged bt
settled bt p o = elim p.state [ inl r ↦ absurd (cc (r.going, o)) | inr (_, j) ↦ j ]

pub logged-IsSafe : (bt : Battle) (log : List Event) → IsSafe bt → IsSafe (record bt { log = log })
logged-IsSafe bt log h first = h first
logged-IsSafe bt log h second = h second

-- A legal switch.
switch_in-Returns :
    (bt : Battle) (seat : Seat) (to : ℤ) (b : Battler)
    → at_index (side_of bt seat).party to ≡ some b
    → IsSafe bt
    → Returns (λ b. IsSafe b × SameVerdict bt b) (switch_in bt seat to b)
unfolding switch_in
switch_in-Returns bt seat (pos n) b e h =
    let s = side_of bt seat in
    let (out, eo, so) = active_battler-Returns s (h seat) in
    let back : Battler = record out { stages = no_stages; flinched = false } in
    let sound : IsSound back = record {
      low = so.low;
      high = so.high;
      boosts = no_stages-IsStageBlock;
    } in
    let ready = put_active-IsReady s back (h seat) sound in
    let moved : Side = record (put_active s back) { active = n } in
    let there : IsReady moved = record {
      in_range = omega (arith, get_elem?-lt s.party n e, length-set s.party s.active back);
      sound = ready.sound;
    } in
    let bt1 = with_side bt seat moved in
    let log = bt1.log ++ event "switch" seat (named b " enters the field") ∷ [] in
    (
      record bt1 { log = log },
      rw (eo, switch_in),
      (
        logged-IsSafe bt1 log (with_side-IsSafe bt seat moved h there),
        with_side-SameVerdict bt seat moved,
      ),
    )
switch_in-Returns bt seat (negsuc n) b e h = absurd (cc e)

do_switch-Returns :
    (seat : Seat) (to : ℤ) (bt : Battle)
    → IsSafe bt
    → Returns (λ b. IsSafe b × SameVerdict bt b) (do_switch seat to bt)
unfolding do_switch
do_switch-Returns seat to bt h = elim (Option-cases (at_index (side_of bt seat).party to)) [
  | inl e ↦ (bt, rw (e, do_switch), (h, (refl, refl)))
  | inr (b, e) ↦ elim (Bool-cases (fainted b || eq_ℤ to (pos (side_of bt seat).active))) [
    | inl f ↦ (bt, rw (e, do_switch, f), (h, (refl, refl)))
    | inr f ↦
        let (bt', e', k) = switch_in-Returns bt seat to b e h in (bt', rw (e, do_switch, f, e'), k)
  ]
]

pub switch_phase-Returns :
    (seat : Seat) (act : MoveAction) (bt : Battle)
    → IsSafe bt
    → Returns (λ b. IsSafe b × SameVerdict bt b) (switch_phase seat act bt)
unfolding switch_phase switch_by
switch_phase-Returns seat act bt h = switch_by-Returns act.kind seat act.switch_to
  where
    switch_by-Returns :
        (k : ActionKind) (seat : Seat) (to : ℤ)
        → Returns (λ b. IsSafe b × SameVerdict bt b) (switch_by k seat to bt)
    switch_by-Returns act_switch seat to = do_switch-Returns seat to bt h
    switch_by-Returns act_move seat to = (bt, refl, (h, (refl, refl)))
    switch_by-Returns unknown seat to = (bt, refl, (h, (refl, refl)))

-- The cooldowns decide nothing.
pub tick_active-Returns :
    (seat : Seat) (bt : Battle)
    → IsSafe bt
    → IsJudged bt
    → Returns (λ b. IsSafe b × IsJudged b) (tick_active seat bt)
unfolding tick_active tick_cooldowns
tick_active-Returns first bt h j =
    let (b, e, sound) = active_battler-Returns bt.side_a (h first) in
    let c = tick_cooldowns b in
    let s = put_active bt.side_a c in
    let ready =
      put_active-IsReady bt.side_a c (h first)
        (record { low = sound.low; high = sound.high; boosts = sound.boosts }) in
    let same = has_usable-put_active bt.side_a b c e refl in
    (
      with_side bt first s,
      rw (e, tick_active),
      (
        with_side-IsSafe bt first s h ready,
        record { over = rw same j.over; winner = rw same j.winner },
      ),
    )
tick_active-Returns second bt h j =
    let (b, e, sound) = active_battler-Returns bt.side_b (h second) in
    let c = tick_cooldowns b in
    let s = put_active bt.side_b c in
    let ready =
      put_active-IsReady bt.side_b c (h second)
        (record { low = sound.low; high = sound.high; boosts = sound.boosts }) in
    let same = has_usable-put_active bt.side_b b c e refl in
    (
      with_side bt second s,
      rw (e, tick_active),
      (
        with_side-IsSafe bt second s h ready,
        record { over = rw same j.over; winner = rw same j.winner },
      ),
    )
