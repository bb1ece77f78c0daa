-- ===== src/Ai/Best.antt =====
-- That the AI of services/battle/internal/ai/ai.go plays the best option at the difficulty Boss.
use pokecatch.Prelude.{
  ℕ, suc, ◌≡◌, ◌≢◌, refl, sym, subst, Bool, true, false, ◌⊎◌, inl, inr, List, [], ◌∷◌, ◌++◌, arith,
  Bool-cases, All, All-imp, if◌then◌else◌, ◌==◌,
}
use pokecatch.Prelude.Int.{ℤ, pos}
use pokecatch.Prelude.Float.{Float64, IsStrictOrder}
use pokecatch.Ai.{
  boss, View, Scored, Candidate, options, ranked, best_two, choose, choose_action, move_options,
  switch_options, settle, should_consider_switch,
}
use pokecatch.Creatures.Model.{Skill}
use pokecatch.Ai.Legal.{best_two_both}

module _ (fl : Float64) where
  open fl use {F, lt}

  abbrev pub Has : List (Scored F) → Scored F → Type 0
  Has [] o = ⊥
  Has (x ∷ xs) o = (x ≡ o) ⊎ Has xs o

  -- No option scores above `o`.
  abbrev pub IsBest : List (Scored F) → Scored F → Type 0
  IsBest os o = Has os o × All (λ x. lt o.score x.score ≡ false) os

  All-Has : (os : List (Scored F)) → All (Has os) os
  All-Has [] = _
  All-Has (o ∷ os) = (inl refl, All-imp (Has os) (Has (o ∷ os)) os (λ x m. inr m) (All-Has os))

  -- `y` is above nothing less than `x` is.
  abbrev Covers : Scored F → Scored F → Type 0
  Covers x y = (s : F) → lt x.score s ≡ false → lt y.score s ≡ false

  Covers-above : (x y : Scored F) → IsStrictOrder fl → lt x.score y.score ≡ true → Covers x y
  Covers-above x y law h s k = elim (Bool-cases (lt y.score s)) [
    | inl e ↦ absurd (cc (k, law.trans x.score y.score s h e))
    | inr e ↦ e
  ]

  ranked_top :
      (best second next : Candidate F)
      → IsStrictOrder fl
      → Covers best.chosen (ranked fl best second next).0.chosen
        × (lt (ranked fl best second next).0.chosen.score next.chosen.score ≡ false)
  ranked_top best second next law = elim (Bool-cases (lt best.chosen.score next.chosen.score)) [
    | inl e ↦
        let kept : (ranked fl best second next).0 ≡ next = rw e refl in
        (
          subst (λ (c : Candidate F). Covers best.chosen c.chosen) (sym kept)
              (Covers-above best.chosen next.chosen law e),
          subst (λ (c : Candidate F). lt c.chosen.score next.chosen.score ≡ false) (sym kept)
              (law.irrefl next.chosen.score),
        )
    | inr e ↦
        let kept : (ranked fl best second next).0 ≡ best = ground (arith, e) in
        (
          subst (λ (c : Candidate F). Covers best.chosen c.chosen) (sym kept) (λ s k. k),
          subst (λ (c : Candidate F). lt c.chosen.score next.chosen.score ≡ false) (sym kept) e,
        )
  ]

  best_two_top :
      (i : ℕ) (top : Candidate F × Candidate F) (os : List (Scored F))
      → IsStrictOrder fl
      → Covers top.0.chosen (best_two fl i top os).0.chosen
        × All (λ x. lt (best_two fl i top os).0.chosen.score x.score ≡ false) os
  unfolding best_two
  best_two_top i top [] law = (λ s k. k, _)
  best_two_top i top (o ∷ os) law =
      let next : Candidate F = record { index = i; chosen = o } in
      let (covers, above) = ranked_top top.0 top.1 next law in
      let (further, all) = best_two_top (suc i) (ranked fl top.0 top.1 next) os law in
      (λ s k. further s (covers s k), (further o.score above, all))

  module _ {R : Type 0} (chance : ℤ → R → Bool × R) where
    choose-IsBest :
        (os : List (Scored F)) (r : R)
        → IsStrictOrder fl
        → (chance (pos 0) r).0 ≡ false
        → os ≢ []
        → (o : Scored F) × IsBest os o × ((choose fl chance boss os r).0 ≡ o.dec)
    choose-IsBest [] r law never some_ = absurd (some_ refl)
    choose-IsBest (o ∷ os) r law never some_ =
        let first : Candidate F = record { index = 0; chosen = o } in
        let top = best_two fl 1 (first, first) os in
        let has = All-Has (o ∷ os) in
        let (covers, all) = best_two_top 1 (first, first) os law in
        let (held, _) = best_two_both fl (Has (o ∷ os)) 1 (first, first) os has.0 has.0 has.1 in
        (top.0.chosen, (held, (covers o.score (law.irrefl o.score), all)), settled top)
      where
        settled :
            (top : Candidate F × Candidate F) → (settle fl chance boss top r).0 ≡ top.0.chosen.dec
        settled top = elim (Bool-cases (top.0.index == top.1.index)) [
          | inl e ↦ rw e refl
          | inr e ↦ rw (e, never) refl
        ]

    has_options :
        (self opp : View F) (mvs : List (Skill F)) (more : List (Scored F))
        → mvs ≢ []
        → move_options fl self opp 0 mvs ++ more ≢ []
    unfolding move_options
    has_options self opp [] more h = λ e. h refl
    has_options self opp (mv ∷ mvs) more h = λ e. cc e

-- If < on doubles is irreflexive and transitive, a chance of 0 never comes true, and there is a
-- usable move, ChooseAction at the difficulty Boss returns the decision of one of its options
-- such that no option scores above it.
pub boss_plays-IsBest :
    (fl : Float64) {R : Type 0} (chance : ℤ → R → Bool × R) (r : R) (self : View fl.F)
    (bench : List (View fl.F)) (opp : View fl.F)
    → IsStrictOrder fl
    → (chance (pos 0) r).0 ≡ false
    → self.moves ≢ []
    → (o : Scored fl.F) × IsBest fl (options fl self bench opp) o
      × ((choose_action fl chance r boss self bench opp).0 ≡ o.dec)
unfolding choose_action
boss_plays-IsBest fl chance r self bench opp law never some_ =
    choose-IsBest fl chance (options fl self bench opp) r law never (
      has_options fl chance self opp self.moves
        (if should_consider_switch fl self opp then switch_options fl self opp 0 bench else [])
        some_)
