-- ===== src/Session/Broadcast/Redacted.antt =====
-- What a snapshot of services/battle/internal/netcode/broadcast.go shows of a battle, and what not.
use pokecatch.Prelude.{ℕ, zero, suc, ◌≡◌, refl, sym, ◌∙◌, ap, some, List, [], ◌∷◌, arith, get_elem?}
use pokecatch.Creatures.Model.{Species, Instance}
use pokecatch.Creatures.Stats.{compute_stats}
use pokecatch.Prelude.Float.{Float64}
use pokecatch.Engine.Battler.{Battler, new_battler}
use pokecatch.Engine.Battle.Exchange.{Seat, first, second}
use pokecatch.Engine.Battle.{Side, Battle, active_battler}
use pokecatch.Engine.Battle.Safety.{IsSafe, IsReady, active_battler-Returns}
use pokecatch.Session.Broadcast.{BattlerView, StateSnapshot, view, bench, bench_from, snapshot}

-- Battlers that agree on species, level, hit points, their maximum and status. Their creatures may
-- differ in all that leaves the maximum, which is the stat of the hit points, as it is.
abbrev pub AreAlike : Battler → Battler → Type 0
AreAlike b c =
    (b.species.dex_id ≡ c.species.dex_id)
    × (b.species.name ≡ c.species.name)
    × (b.inst.level ≡ c.inst.level)
    × (b.cur_hp ≡ c.cur_hp)
    × (b.max_hp ≡ c.max_hp)
    × (b.status ≡ c.status)

-- NewBattler takes the maximum from the level, and from the base, the IV and the EV of the hit
-- points: creatures that agree on these and on what a snapshot shows are alike.
pub new_battler-AreAlike :
    (fl : Float64) (sp : Species) (x y : Instance)
    → x.level ≡ y.level
    → x.ivs.hp ≡ y.ivs.hp
    → x.evs.hp ≡ y.evs.hp
    → x.current_hp ≡ y.current_hp
    → x.status ≡ y.status
    → AreAlike (new_battler fl sp x) (new_battler fl sp y)
unfolding new_battler compute_stats
new_battler-AreAlike fl sp x y level iv ev cur status =
    (refl, refl, level, cc (level, iv, ev, cur), cc (level, iv, ev), status)

-- The exact hit points of a battler, now and at most
abbrev pub Discloses : Side → BattlerView → Type 0
Discloses sd shown =
    (b : Battler) × (active_battler sd ≡ some b)
    × (shown.hp_cur ≡ b.cur_hp)
    × (shown.hp_max ≡ b.max_hp)

abbrev pub HasAlike : List Battler → List Battler → Type 0
HasAlike [] [] = Unit {0}
HasAlike [] (c ∷ cs) = ⊥
HasAlike (b ∷ bs) [] = ⊥
HasAlike (b ∷ bs) (c ∷ cs) = AreAlike b c × HasAlike bs cs

abbrev pub LooksAlike : Side → Side → Type 0
LooksAlike s t = (s.active ≡ t.active) × HasAlike s.party t.party

view_alike : (b c : Battler) → AreAlike b c → view b ≡ view c
view_alike b c h = cc (h.0, h.1, h.2, h.3, h.4, h.5)

bench_alike :
    (active i : ℕ) (bs cs : List Battler)
    → HasAlike bs cs
    → bench_from active i bs ≡ bench_from active i cs
unfolding bench_from
bench_alike active i [] [] h = refl
bench_alike active i [] (c ∷ cs) h = elim h [ ]
bench_alike active i (b ∷ bs) [] h = elim h [ ]
bench_alike active i (b ∷ bs) (c ∷ cs) h =
    ground (arith, view_alike b c h.0, bench_alike active (suc i) bs cs h.1)

active_alike :
    (bs cs : List Battler) (i : ℕ) (b : Battler)
    → HasAlike bs cs
    → get_elem? bs i ≡ some b
    → (c : Battler) × (get_elem? cs i ≡ some c) × (view b ≡ view c)
active_alike [] cs i b h e = absurd (cc e)
active_alike (x ∷ xs) [] i b h e = elim h [ ]
active_alike (x ∷ xs) (c ∷ cs) zero b h e =
    (c, refl, ap view (some_inj (sym e)) ∙ view_alike x c h.0)
  where
    some_inj : {p q : Battler} → some p ≡ some q → p ≡ q
    some_inj k = cc k
active_alike (x ∷ xs) (c ∷ cs) (suc i) b h e = active_alike xs cs i b h.1 e

active_view :
    (s t : Side)
    → LooksAlike s t
    → IsReady s
    → (b c : Battler) × (active_battler s ≡ some b)
      × (active_battler t ≡ some c)
      × (view b ≡ view c)
active_view s t h ready =
    let (b, e, sound) = active_battler-Returns s ready in
    let (c, f, same) = active_alike s.party t.party s.active b h.1 e in
    (b, c, e, ap (get_elem? t.party) (sym h.0) ∙ f, same)

bench_view : (s t : Side) → LooksAlike s t → bench s ≡ bench t
bench_view s t h = bench_alike s.active 0 s.party t.party h.1 ∙ ap (λ i. bench_from i 0 t.party) h.0

-- Of a safe battle a snapshot does not panic, and it is the same for every other battle with the
-- same active indices whose battlers agree in species number and name, level, current and maximum
-- hit points and status: beyond these it shows nothing of stats, IVs, EVs, natures, moves,
-- boosts, counters or the generator, and of the active battlers it shows the exact current hit
-- points and the exact maximum.
pub snapshot_redacts :
    (bt other : Battle) (side : Seat)
    → IsSafe bt
    → LooksAlike bt.side_a other.side_a
    → LooksAlike bt.side_b other.side_b
    → (shown : StateSnapshot) × (snapshot bt side ≡ some shown)
      × (snapshot other side ≡ some shown)
      × Discloses bt.side_a shown.active_a
      × Discloses bt.side_b shown.active_b
unfolding snapshot
snapshot_redacts bt other side safe a b =
    let (p, q, e, f, one) = active_view bt.side_a other.side_a a (safe first) in
    let (r, s, g, h, two) = active_view bt.side_b other.side_b b (safe second) in
    (
      record {
        active_a = view q;
        active_b = view s;
        bench_a = bench other.side_a;
        bench_b = bench other.side_b;
        your_side = side;
      },
      rw (e, g, one, two, bench_view bt.side_a other.side_a a, bench_view bt.side_b other.side_b b)
          refl,
      rw (f, h) refl,
      (
        p,
        e,
        ap (λ (v : BattlerView). v.hp_cur) (sym one),
        ap (λ (v : BattlerView). v.hp_max) (sym one),
      ),
      (
        r,
        g,
        ap (λ (v : BattlerView). v.hp_cur) (sym two),
        ap (λ (v : BattlerView). v.hp_max) (sym two),
      ),
    )
