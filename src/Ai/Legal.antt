-- ===== src/Ai/Legal.antt =====
-- That the AI of services/battle/internal/ai/ai.go chooses an action that there is.
use pokecatch.Prelude.{
  ℕ, suc, ◌+◌, ◌<◌, ◌≡◌, refl, ◌∙◌, ap, Bool, true, false, ◌||◌, ◌⊎◌, inl, inr, some, List, [], ◌∷◌,
  ◌++◌, arith, Bool-cases, All, All-imp, All-append, length, get_elem?, if_holds, if◌then◌else◌,
  ◌==◌,
}
use pokecatch.Prelude.Int.{ℤ}
use pokecatch.Prelude.Float.{Float64}
use pokecatch.Creatures.Model.{Skill}
use pokecatch.Ai.{
  Difficulty, mistake_chance, View, Decision, Scored, Candidate, move_decision,
  should_consider_switch, move_options, switch_options, options, ranked, best_two, choose,
  choose_action,
}

module _ (fl : Float64) where
  open fl use {F, lt}

  -- What all options have, the two best have.
  ranked_both :
      (P : Scored F → Type 0) (best second next : Candidate F)
      → P best.chosen
      → P second.chosen
      → P next.chosen
      → P (ranked fl best second next).0.chosen × P (ranked fl best second next).1.chosen
  ranked_both P best second next p q r =
      if_holds (λ (t : Candidate F × Candidate F). P t.0.chosen × P t.1.chosen)
        (lt best.chosen.score next.chosen.score) (λ _. (r, p))
        (λ _.
          if_holds (λ (t : Candidate F × Candidate F). P t.0.chosen × P t.1.chosen)
            (lt second.chosen.score next.chosen.score || (second.index == best.index)) (λ _. (p, r))
            (λ _. (p, q)))

  pub best_two_both :
      (P : Scored F → Type 0) (i : ℕ) (top : Candidate F × Candidate F) (os : List (Scored F))
      → P top.0.chosen
      → P top.1.chosen
      → All P os
      → P (best_two fl i top os).0.chosen × P (best_two fl i top os).1.chosen
  unfolding best_two
  best_two_both P i top [] p q h = (p, q)
  best_two_both P i top (o ∷ os) p q h =
      let next : Candidate F = record { index = i; chosen = o } in
      let (a, b) = ranked_both P top.0 top.1 next p q h.0 in
      best_two_both P (suc i) (ranked fl top.0 top.1 next) os a b h.1

  choose_one :
      {R : Type 0} (chance : ℤ → R → Bool × R) (P : Decision → Type 0) (d : Difficulty)
      (os : List (Scored F)) (r : R)
      → All (λ o. P o.dec) os
      → (os ≡ [] → P (move_decision 0))
      → P (choose fl chance d os r).0
  choose_one chance P d [] r h none_left = none_left refl
  choose_one chance P d (o ∷ os) r h none_left =
      let first : Candidate F = record { index = 0; chosen = o } in
      let top = best_two fl 1 (first, first) os in
      let (a, b) = best_two_both (λ s. P s.dec) 1 (first, first) os h.0 h.0 h.1 in
      elim (Bool-cases (top.0.index == top.1.index)) [
        | inl e ↦ rw e a
        | inr e ↦ elim (Bool-cases (chance (mistake_chance d) r).0) [
          | inl k ↦ rw (e, k) b
          | inr k ↦ rw (e, k) a
        ]
      ]

  move_options_below :
      (self opp : View F) (i : ℕ) (mvs : List (Skill F))
      → All
          (λ o. (o.dec.switch ≡ false) × (o.dec.skill_idx < i + length mvs))
          (move_options fl self opp i mvs)
  unfolding move_options
  move_options_below self opp i [] = _
  move_options_below self opp i (mv ∷ mvs) = (
    (refl, omega arith),
    All-imp (λ o. (o.dec.switch ≡ false) × (o.dec.skill_idx < suc i + length mvs))
        (λ o. (o.dec.switch ≡ false) × (o.dec.skill_idx < i + suc (length mvs)))
        (move_options fl self opp (suc i) mvs) (λ o h. (h.0, omega (arith, h.1)))
        (move_options_below self opp (suc i) mvs),
  )

  -- A switch to a member that stands, `k` places on from `i`
  abbrev IsSwitch : ℕ → List (View F) → Decision → Type 0
  IsSwitch i bench d =
      (d.switch ≡ true)
      × ((k : ℕ) × (b : View F) × (d.switch_to ≡ i + k)
          × (get_elem? bench k ≡ some b)
          × (b.fainted ≡ false))

  switch_options_stand :
      (self opp : View F) (i : ℕ) (bs : List (View F))
      → All (λ o. IsSwitch i bs o.dec) (switch_options fl self opp i bs)
  unfolding switch_options
  switch_options_stand self opp i [] = _
  switch_options_stand self opp i (b ∷ bs) =
      let rest =
        All-imp (λ o. IsSwitch (suc i) bs o.dec) (λ o. IsSwitch i (b ∷ bs) o.dec)
          (switch_options fl self opp (suc i) bs)
          (λ o h. let (s, (k, v, at_k, e, f)) = h in (s, (suc k, v, omega (arith, at_k), e, f)))
          (switch_options_stand self opp (suc i) bs) in
      if_holds (All (λ o. IsSwitch i (b ∷ bs) o.dec)) b.fainted (λ _. rest)
        (λ e. ((refl, (0, b, omega arith, refl, e)), rest))

  -- A usable move (the first if there is none), or a switch, when it may be considered, to a member
  -- of the bench that stands.
  abbrev pub IsLegal : View F → List (View F) → View F → Decision → Type 0
  IsLegal self bench opp d =
      ((d.switch ≡ false)
        × ((d.skill_idx < length self.moves) ⊎ ((self.moves ≡ []) × (d.skill_idx ≡ 0))))
      ⊎ ((d.switch ≡ true)
          × (should_consider_switch fl self opp ≡ true)
          × ((b : View F) × (get_elem? bench d.switch_to ≡ some b) × (b.fainted ≡ false)))

  IsLegal-switches :
      (self opp : View F) (bench : List (View F))
      → should_consider_switch fl self opp ≡ true
      → All (λ o. IsLegal self bench opp o.dec) (switch_options fl self opp 0 bench)
  IsLegal-switches self opp bench e =
      All-imp (λ o. IsSwitch 0 bench o.dec) (λ o. IsLegal self bench opp o.dec)
        (switch_options fl self opp 0 bench)
        (λ o h.
          let (s, (k, b, at_k, f, g)) = h in
          let same : o.dec.switch_to ≡ k = omega (arith, at_k) in
          inr (s, e, (b, ap (get_elem? bench) same ∙ f, g)))
        (switch_options_stand self opp 0 bench)

  options-IsLegal :
      (self opp : View F) (bench : List (View F))
      → All (λ o. IsLegal self bench opp o.dec) (options fl self bench opp)
  options-IsLegal self opp bench =
      All-append (λ o. IsLegal self bench opp o.dec) (move_options fl self opp 0 self.moves)
        (if should_consider_switch fl self opp then switch_options fl self opp 0 bench else [])
        (All-imp (λ o. (o.dec.switch ≡ false) × (o.dec.skill_idx < 0 + length self.moves))
          (λ o. IsLegal self bench opp o.dec) (move_options fl self opp 0 self.moves)
          (λ o h. inl (h.0, inl (omega (arith, h.1)))) (move_options_below self opp 0 self.moves))
        (if_holds (All (λ o. IsLegal self bench opp o.dec)) (should_consider_switch fl self opp)
          (λ e. IsLegal-switches self opp bench e) (λ _. _))

  no_moves :
      (self opp : View F) (mvs : List (Skill F)) (more : List (Scored F))
      → move_options fl self opp 0 mvs ++ more ≡ []
      → mvs ≡ []
  unfolding move_options
  no_moves self opp [] more h = refl
  no_moves self opp (mv ∷ mvs) more h = absurd (cc h)

-- Whatever the scores, the difficulty and the draws, ChooseAction returns the index of a usable
-- move, or index 0 if there is none and no switch is an option, or, when a switch is to be
-- considered, the index of a member of the bench that has not fainted.
pub choose_action-IsLegal :
    (fl : Float64) {R : Type 0} (chance : ℤ → R → Bool × R) (r : R) (d : Difficulty)
    (self : View fl.F) (bench : List (View fl.F)) (opp : View fl.F)
    → IsLegal fl self bench opp (choose_action fl chance r d self bench opp).0
unfolding choose_action
choose_action-IsLegal fl chance r d self bench opp =
    choose_one fl chance (IsLegal fl self bench opp) d (options fl self bench opp) r
      (options-IsLegal fl self opp bench)
      (λ e. inl (
        refl,
        inr (
          no_moves fl self opp self.moves
              (if should_consider_switch fl self opp
                then switch_options fl self opp 0 bench
                else [])
              e,
          refl,
        ),
      ))
