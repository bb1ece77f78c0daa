-- ===== src/Demo/Legal.antt =====
-- That the bots of services/battle/cmd/demo/main.go send actions that the session takes as they are.
use pokecatch.Prelude.{
  ℕ, ◌+◌, ◌<◌, ◌≤◌, ◌≡◌, ◌≢◌, refl, sym, ap, ◌∙◌, ◌⊎◌, inl, inr, String, Bool, true, false, Option,
  some, [], All, length, get_elem?, get_elem?-lt, arith, Bool-cases,
}
use pokecatch.Prelude.Int.{ℤ}
use pokecatch.Prelude.Float.{Float64}
use pokecatch.Prelude.Dict
use pokecatch.Prelude.Dict.{Dict}
use pokecatch.Prelude.Partial.{◌>>=◌, Returns}
use pokecatch.Creatures.Model.{Skill, Dex}
use pokecatch.Engine.Battler.{Battler, fainted}
use pokecatch.Engine.Battle.Exchange.{MoveAction}
use pokecatch.Engine.Battle.{Side, active_battler}
use pokecatch.Session.{is_legal}
use pokecatch.Ai.{View, Decision, normal}
use pokecatch.Ai.Legal.{IsLegal, choose_action-IsLegal}
use pokecatch.Demo.Options.{
  standing_or_none, IsHeld, usable-IsHeld, slot_at-some, length-moves_of, moves_of-nil, bench_index,
}
use pokecatch.Demo.{
  usable, to_view, switch_action, move_action, first_standing, bench_views, action_of, decision,
  with_rng, advised, acts, decide,
}

-- The action is a switch to a member that stands.
abbrev pub IsSwitchIn : Side → MoveAction → Type 0
IsSwitchIn self act =
    (i : ℕ) × (act ≡ switch_action i)
    × ((b : Battler) × (get_elem? self.party i ≡ some b) × (fainted b ≡ false))

-- The action is a move of the slot of a skill of the catalogue.
abbrev pub IsKnownMove : {F : Type 0} → Dex F → Battler → MoveAction → Type 0
IsKnownMove {F} dex b act =
    (slot : ℕ) × (act ≡ move_action slot)
    × ((id : String) × (sk : Skill F) × (get_elem? b.inst.skill_ids slot ≡ some id)
        × (Dict.get dex.skills id ≡ some sk))

zero_plus : (k : ℕ) → 0 + k ≡ k
zero_plus k = omega arith

switch_legal : (i : ℕ) → is_legal (switch_action i) ≡ true
switch_legal i = ground arith

move_legal : (slot : ℕ) → slot < 4 → is_legal (move_action slot) ≡ true
move_legal slot h = ground (arith, h)

module _ (fl : Float64) where
  open fl use {F}

  action_of_plays :
      (dex : Dex F) (self : Side) (a : Battler) (facing : View F) (d : Decision)
      → usable fl dex a ≢ []
      → IsLegal fl (to_view fl dex a) (bench_views fl dex self.active 0 self.party) facing d
      → Returns (λ act. IsSwitchIn self act ⊎ IsKnownMove dex a act) (action_of fl dex self a d)
  action_of_plays dex self a facing d some_ (inl (move, inl low)) =
      let (u, e, (k, id, at_k, held, known)) =
        slot_at-some fl (IsHeld fl dex.skills 0 a.inst.skill_ids) (usable fl dex a) d.skill_idx
          (usable-IsHeld fl dex.skills 0 a.inst.skill_ids)
          (omega (arith, low, length-moves_of fl (usable fl dex a))) in
      let same : u.slot ≡ k = omega (arith, at_k) in
      (
        move_action u.slot,
        rw (move, e) refl,
        inr (u.slot, refl, (id, u.skill, ap (get_elem? a.inst.skill_ids) same ∙ held, known)),
      )
  action_of_plays dex self a facing d some_ (inl (move, inr (empty, zero_))) =
      absurd (some_ (moves_of-nil fl (usable fl dex a) empty))
  action_of_plays dex self a facing d some_ (inr (switch, _, (v, at_v, up))) =
      let (m, b, f, g, same) = bench_index fl dex self.active 0 d.switch_to self.party v at_v in
      (
        switch_action (0 + m),
        rw (switch, f) refl,
        inl (
          0 + m,
          refl,
          (
            b,
            ap (get_elem? self.party) (omega arith) ∙ g,
            ap (λ (w : View F). w.fainted) (sym same) ∙ up,
          ),
        ),
      )

  -- What a bot does for its active battler `a`.
  abbrev pub IsPlay : Dex F → Side → Battler → MoveAction → Type 0
  IsPlay dex self a act =
      (is_legal act ≡ true)
      × (IsSwitchIn self act
          ⊎ IsKnownMove dex a act
          ⊎ ((act ≡ move_action 0) × All (λ b. fainted b ≡ true) self.party))

  switch-IsPlay :
      (dex : Dex F) (self : Side) (a : Battler) (act : MoveAction)
      → IsSwitchIn self act
      → IsPlay dex self a act
  switch-IsPlay dex self a act (i, e, b) = (rw e (switch_legal i), inl (i, e, b))

  move-IsPlay :
      (dex : Dex F) (self : Side) (a : Battler) (act : MoveAction)
      → length a.inst.skill_ids ≤ 4
      → IsKnownMove dex a act
      → IsPlay dex self a act
  move-IsPlay dex self a act four (slot, e, (id, sk, held, known)) = (
    rw e (move_legal slot (omega (arith, four, get_elem?-lt a.inst.skill_ids slot held))),
    inr (inl (slot, e, (id, sk, held, known))),
  )

  some_move :
      (dex : Dex F) (a : Battler)
      → (fainted a ≡ true) ⊎ (usable fl dex a ≢ [])
      → fainted a ≡ false
      → usable fl dex a ≢ []
  some_move dex a (inl down) up = absurd (cc (down, up))
  some_move dex a (inr some_) up = some_

  module _ {R : Type 0} (chance : ℤ → R → Bool × R) where
    -- If both active indices are in range, the active battler has at most four skill slots, and
    -- it has fainted or has a skill of the catalogue, then a bot does not panic, and sends an
    -- action that the session's validate accepts: a switch to a member that stands, a move of a
    -- slot with a skill of the catalogue, or the first slot when its whole party has fainted.
    pub decide-IsPlay :
        (r : R) (self opp : Side) (dex : Dex F) (a b : Battler)
        → active_battler self ≡ some a
        → active_battler opp ≡ some b
        → length a.inst.skill_ids ≤ 4
        → (fainted a ≡ true) ⊎ (usable fl dex a ≢ [])
        → Returns (λ out. IsPlay dex self a out.0) (decide fl chance r self opp dex)
    unfolding decide
    decide-IsPlay r self opp dex a b ea eb four can =
        let entered : decide fl chance r self opp dex
            ≡ acts fl chance r self opp dex a (fainted a) =
          ap (λ (o : Option Battler). o >>= (λ c. acts fl chance r self opp dex c (fainted c)))
            ea in
        let out : MoveAction × R = (first_standing 0 self.party, r) in
        elim (Bool-cases (fainted a)) [
          | inl down ↦
              let left = entered ∙ ap (acts fl chance r self opp dex a) down in
              elim (standing_or_none 0 self.party) [
                | inl (k, c, e, at_k, up) ↦
                    let there = ap (get_elem? self.party) (zero_plus k) ∙ at_k in
                    (out, left, switch-IsPlay dex self a out.0 (0 + k, e, (c, there, up)))
                | inr (e, all) ↦ (out, left, (rw e refl, inr (inr (e, all))))
              ]
          | inr up ↦
              let d = decision fl chance r self a b dex in
              let (act, e, play) =
                action_of_plays dex self a (to_view fl dex b) d.0 (some_move dex a can up) (
                  choose_action-IsLegal fl chance r normal (to_view fl dex a)
                    (bench_views fl dex self.active 0 self.party) (to_view fl dex b)) in
              let asked =
                ap (λ (o : Option Battler). o >>= (λ c. advised fl chance r self a c dex)) eb in
              (
                (act, d.1),
                entered
                    ∙ ap (acts fl chance r self opp dex a) up
                    ∙ asked
                    ∙ ap (with_rng fl chance d) e,
                elim play [
                  | inl s ↦ switch-IsPlay dex self a act s
                  | inr m ↦ move-IsPlay dex self a act four m
                ],
              )
        ]
