-- ===== src/Demo/Options.antt =====
-- The lists that the bots of services/battle/cmd/demo/main.go choose from: the usable moves with their
-- slots, and the bench with its indices in the party.
use pokecatch.Prelude.{
  ℕ, zero, suc, ◌+◌, ◌<◌, ◌≡◌, refl, sym, ap, ◌∙◌, ◌⊎◌, inl, inr, String, true, false, some, List,
  [], ◌∷◌, All, All-imp, length, get_elem?, arith, str_eq, Bool-cases, Option-cases, if_holds, ◌==◌,
}
use pokecatch.Prelude.Float.{Float64}
use pokecatch.Prelude.Dict
use pokecatch.Prelude.Dict.{Dict}
use pokecatch.Creatures.Model.{Skill, Dex}
use pokecatch.Engine.Battler.{Battler, fainted}
use pokecatch.Ai.{View}
use pokecatch.Demo.{
  Usable, usable_from, moves_of, to_view, switch_action, move_action, first_standing, bench_map,
  bench_views, slot_at,
}

pub standing_or_none :
    (i : ℕ) (bs : List Battler)
    → ((k : ℕ) × (b : Battler) × (first_standing i bs ≡ switch_action (i + k))
        × (get_elem? bs k ≡ some b)
        × (fainted b ≡ false))
      ⊎ ((first_standing i bs ≡ move_action 0) × All (λ b. fainted b ≡ true) bs)
unfolding first_standing
standing_or_none i [] = inr (refl, _)
standing_or_none i (b ∷ bs) = elim (Bool-cases (fainted b)) [
  | inr up ↦ inl (0, b, rw (up, plus_zero) refl, refl, up)
  | inl down ↦ elim (standing_or_none (suc i) bs) [
    | inl (k, c, e, at_k, up) ↦ inl (suc k, c, rw down (e ∙ ap switch_action (shifted k)), at_k, up)
    | inr (e, all) ↦ inr (rw down e, (down, all))
  ]
]
  where
    plus_zero : i + 0 ≡ i
    plus_zero = omega arith

    shifted : (k : ℕ) → suc i + k ≡ i + suc k
    shifted k = omega arith

module _ (fl : Float64) where
  open fl use {F}

  abbrev pub IsHeld : Dict (Skill F) → ℕ → List String → Usable F → Type 0
  IsHeld skills slot ids u =
      (k : ℕ) × (id : String) × (u.slot ≡ slot + k)
      × (get_elem? ids k ≡ some id)
      × (Dict.get skills id ≡ some u.skill)

  pub usable-IsHeld :
      (skills : Dict (Skill F)) (slot : ℕ) (ids : List String)
      → All (IsHeld skills slot ids) (usable_from fl skills slot ids)
  unfolding usable_from
  usable-IsHeld skills slot [] = _
  usable-IsHeld skills slot (id ∷ ids) =
      let rest =
        All-imp (IsHeld skills (suc slot) ids) (IsHeld skills slot (id ∷ ids))
          (usable_from fl skills (suc slot) ids)
          (λ u h. let (k, i, at_k, e, f) = h in (suc k, i, omega (arith, at_k), e, f))
          (usable-IsHeld skills (suc slot) ids) in
      elim (Option-cases (Dict.get skills id)) [
        | inl e ↦
            if_holds (All (IsHeld skills slot (id ∷ ids))) (str_eq id "") (λ _. rest)
              (λ _. rw e rest)
        | inr (sk, e) ↦
            if_holds (All (IsHeld skills slot (id ∷ ids))) (str_eq id "") (λ _. rest)
              (λ _. rw e ((0, id, omega arith, refl, e), rest))
      ]

  pub slot_at-some :
      (P : Usable F → Type 0) (us : List (Usable F)) (i : ℕ)
      → All P us
      → i < length us
      → (u : Usable F) × (slot_at fl us i ≡ some u.slot) × P u
  slot_at-some P [] i all h = elim h [ ]
  slot_at-some P (u ∷ us) zero all h = (u, refl, all.0)
  slot_at-some P (u ∷ us) (suc i) all h = slot_at-some P us i all.1 (omega arith)

  pub length-moves_of : (us : List (Usable F)) → length (moves_of fl us) ≡ length us
  length-moves_of [] = refl
  length-moves_of (u ∷ us) = ap suc (length-moves_of us)

  pub moves_of-nil : (us : List (Usable F)) → moves_of fl us ≡ [] → us ≡ []
  moves_of-nil [] h = refl
  moves_of-nil (u ∷ us) h = absurd (cc h)

  -- A view on the bench, and the index that benchMap has for it
  pub bench_index :
      (dex : Dex F) (active i k : ℕ) (bs : List Battler) (v : View F)
      → get_elem? (bench_views fl dex active i bs) k ≡ some v
      → (m : ℕ) × (b : Battler) × (get_elem? (bench_map active i bs) k ≡ some (i + m))
        × (get_elem? bs m ≡ some b)
        × (v ≡ to_view fl dex b)
  unfolding bench_views bench_map
  bench_index dex active i k [] v h = absurd (cc h)
  bench_index dex active i k (b ∷ bs) v h = elim (Bool-cases (i == active)) [
    | inl e ↦
        let (m, c, f, g, same) = bench_index dex active (suc i) k bs v (ground (arith, h, e)) in
        (suc m, c, rw e (f ∙ ap some (omega arith)), g, same)
    | inr e ↦
        let (m, c, f, g, same) =
          here (λ k. bench_index dex active (suc i) k bs v) k (ground (arith, h, e)) in
        (m, c, rw e f, g, same)
  ]
    where
      here :
          ((k : ℕ)
            → get_elem? (bench_views fl dex active (suc i) bs) k ≡ some v
            → (m : ℕ) × (c : Battler) × (get_elem? (bench_map active (suc i) bs) k
                ≡ some (suc i + m))
              × (get_elem? bs m ≡ some c)
              × (v ≡ to_view fl dex c))
          → (k : ℕ) → get_elem? (to_view fl dex b ∷ bench_views fl dex active (suc i) bs) k ≡ some v
          → (m : ℕ) × (c : Battler) × (get_elem? (i ∷ bench_map active (suc i) bs) k ≡ some (i + m))
            × (get_elem? (b ∷ bs) m ≡ some c)
            × (v ≡ to_view fl dex c)
      here later zero q = (0, b, ap some (omega arith), refl, sym (some_view q))
        where
          some_view : some (to_view fl dex b) ≡ some v → to_view fl dex b ≡ v
          some_view r = cc r
      here later (suc k) q =
          let (m, c, f, g, same) = later k q in (suc m, c, f ∙ ap some (omega arith), g, same)
