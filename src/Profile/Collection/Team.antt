-- ===== src/Profile/Collection/Team.antt =====
-- Which teams SetTeam takes.
use pokecatch.Prelude.{
  String, ◌≡◌, ◌≢◌, ◌≤◌, ◌⊎◌, refl, Bool, true, false, inl, inr, none, some, List, [], ◌∷◌, arith,
  All, contains, Distinct, length, ltb, eq_iff, Option-cases, Bool-cases,
}
use pokecatch.Prelude.Outcome.{Result-cases}
use pokecatch.Prelude.Dict
use pokecatch.Prelude.Dict.{Dict, get-put, get-empty}
use pokecatch.Profile.Repo.{Error, empty_team, team_too_big, Repo, owner_of}
use pokecatch.Profile.Collection.{is_seen, check_members, set_team}

abbrev Unseen : Dict Bool → List String → Type 0
Unseen seen = All (λ j. is_seen seen j ≡ false)

Unseen-put :
    (seen : Dict Bool) (id : String) (ids : List String)
    → Unseen (Dict.put seen id true) ids
    → (contains ids id ≡ false) × Unseen seen ids
Unseen-put seen id [] h = (refl, tt)
Unseen-put seen id (j ∷ ids) h =
    let (a, b) = Unseen-put seen id ids h.1 in
    (
      ground (arith, get-put seen id j true, eq_iff id j, eq_iff j id),
      (ground (arith, get-put seen id j true, eq_iff id j), b),
    )

put-Unseen :
    (seen : Dict Bool) (id : String) (ids : List String)
    → contains ids id ≡ false
    → Unseen seen ids
    → Unseen (Dict.put seen id true) ids
put-Unseen seen id [] c h = tt
put-Unseen seen id (j ∷ ids) c h = (
  ground (arith, get-put seen id j true, eq_iff id j, eq_iff j id),
  put-Unseen seen id ids (ground arith) h.1,
)

empty-Unseen : (ids : List String) → Unseen Dict.empty ids
empty-Unseen [] = tt
empty-Unseen (j ∷ ids) = (ground (arith, get-empty {V = Bool} j), empty-Unseen ids)

module _ (R : Repo) (s : R.State) (owner_id : String) where
  abbrev Owns : List String → Type 0
  Owns = All (λ id. owner_of (R.get_creature s id) ≡ some owner_id)

  check_members_sound :
      (seen : Dict Bool) (ids : List String)
      → check_members R s owner_id seen ids ≡ none
      → Unseen seen ids × Distinct ids × Owns ids
  unfolding check_members
  check_members_sound seen [] h = (tt, tt, tt)
  check_members_sound seen (id ∷ ids) h = elim (Result-cases (R.get_creature s id)) [
    | inr (x, e) ↦ absurd (ground arith)
    | inl (oc, e) ↦
        let (unseen, distinct, owns) =
          check_members_sound (Dict.put seen id true) ids (ground arith) in
        let (c, before) = Unseen-put seen id ids unseen in
        ((ground arith, before), (c, distinct), (ground (arith, eq_iff oc.owner_id owner_id), owns))
  ]

  check_members_complete :
      (seen : Dict Bool) (ids : List String)
      → Unseen seen ids
      → Distinct ids
      → Owns ids
      → check_members R s owner_id seen ids ≡ none
  unfolding check_members
  check_members_complete seen [] u d o = refl
  check_members_complete seen (id ∷ ids) u d o =
      let rest =
        check_members_complete (Dict.put seen id true) ids (put-Unseen seen id ids d.0 u.1) d.1
          o.1 in
      elim (Result-cases (R.get_creature s id)) [
        | inr (x, e) ↦ absurd (ground arith)
        | inl (oc, e) ↦ ground (arith, eq_iff oc.owner_id owner_id)
      ]

  -- One to six different creatures of the owner's.
  abbrev pub IsTeam : List String → Type 0
  IsTeam ids = (ids ≢ []) × (length ids ≤ 6) × Distinct ids × Owns ids

  -- SetTeam hands a list of ids to the repository if it holds one to six different creatures that
  -- the caller owns, and refuses any other list and writes nothing.
  pub set_team_exact :
      (ids : List String)
      → (IsTeam ids × (set_team R s owner_id ids ≡ R.set_team s owner_id ids))
        ⊎ ((¬ IsTeam ids) × (e : Error) × (set_team R s owner_id ids ≡ (some e, s)))
  unfolding set_team
  set_team_exact [] = inr (λ t. t.0 refl, empty_team, refl)
  set_team_exact (id ∷ ids) = elim (Bool-cases (ltb 6 (length (id ∷ ids)))) [
    | inl big ↦ inr (λ t. absurd (ground arith), team_too_big, ground arith)
    | inr fits ↦ elim (Option-cases (check_members R s owner_id Dict.empty (id ∷ ids))) [
      | inl e ↦
          let (u, d, o) = check_members_sound Dict.empty (id ∷ ids) e in
          inl ((λ q. cc, ground arith, d, o), ground arith)
      | inr (x, e) ↦ inr (
        λ t. cc (check_members_complete Dict.empty (id ∷ ids) (empty-Unseen (id ∷ ids)) t.2 t.3, e),
        x,
        ground arith,
      )
    ]
  ]
