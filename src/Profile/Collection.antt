-- ===== src/Profile/Collection.antt =====
-- services/profile/internal/collection.go and evolve.go: the use cases over any `Repo`.
pub mod Team
pub mod Evolved
pub mod Evolution
pub mod Tests
use pokecatch.Prelude.{
  String, Bool, true, false, not, ◌||◌, Option, none, some, List, [], ◌∷◌, length, ltb, str_eq,
  if◌then◌else◌,
}
use pokecatch.Prelude.Int.{ℤ, pos, eq_ℤ, ltb_ℤ, leb_ℤ}
use pokecatch.Prelude.Outcome.{Result, ok, err}
use pokecatch.Prelude.Dict
use pokecatch.Prelude.Dict.{Dict}
use pokecatch.Creatures.Model.{Dex, Instance, Species, PassiveAbility, is_ability}
use pokecatch.Profile.Repo.{
  OwnedCreature, Error, not_owner, team_too_big, team_dup, empty_team, cannot_evolve, level_too_low,
  Repo,
}

-- The limit that List hands on.
unfoldable pub page_limit : ℤ → ℤ
page_limit limit = if leb_ℤ limit (pos 0) || ltb_ℤ (pos 100) limit then pos 50 else limit

-- seen[id] of a map to Bool.
abbrev pub is_seen : Dict Bool → String → Bool
is_seen seen id = elim (Dict.get seen id) [ none ↦ false | some b ↦ b ]

-- pickAbility
unfoldable pub has_ability : List PassiveAbility → PassiveAbility → Bool
has_ability [] held = false
has_ability (a ∷ as_) held = is_ability a held || has_ability as_ held

abbrev first_ability : List PassiveAbility → PassiveAbility → PassiveAbility
first_ability [] held = held
first_ability (a ∷ _) held = a

unfoldable pub pick_ability : Species → PassiveAbility → PassiveAbility
unfolding has_ability
pick_ability sp held =
    if has_ability sp.abilities held then held else first_ability sp.abilities held

module _ (R : Repo) where
  -- The loop of SetTeam.
  pub check_members : R.State → String → Dict Bool → List String → Option Error
  check_members s owner_id seen [] = none
  check_members s owner_id seen (id ∷ ids) =
      let rest = check_members s owner_id (Dict.put seen id true) ids in
      if is_seen seen id then some team_dup else elim (R.get_creature s id) [
        | err e ↦ some e
        | ok oc ↦ if not (str_eq oc.owner_id owner_id) then some not_owner else rest
      ]

  unfoldable pub set_team : R.State → String → List String → Option Error × R.State
  set_team s owner_id [] = (some empty_team, s)
  set_team s owner_id (id ∷ ids) =
      if ltb 6 (length (id ∷ ids))
      then (some team_too_big, s)
      else elim (check_members s owner_id Dict.empty (id ∷ ids)) [
        | some e ↦ (some e, s)
        | none ↦ R.set_team s owner_id (id ∷ ids)
      ]

  module _ {F : Type 0} (dex : Dex F) where
    -- The checks of Evolve: the creature in its next form, or the error.
    abbrev evolved : OwnedCreature → Species → OwnedCreature
    evolved oc target = record oc {
      inst = record oc.inst {
        dex_id = target.dex_id;
        ability = pick_ability target oc.inst.ability;
      };
    }

    abbrev to_target : OwnedCreature → Option Species → Result Error OwnedCreature
    to_target oc none = err cannot_evolve
    to_target oc (some target) = ok (evolved oc target)

    abbrev next_form : OwnedCreature → Option Species → Result Error OwnedCreature
    next_form oc none = err cannot_evolve
    next_form oc (some sp) =
        if eq_ℤ sp.evolves_to_id (pos 0)
        then err cannot_evolve
        else if ltb_ℤ oc.inst.level sp.evolve_level
        then err level_too_low
        else to_target oc (dex.species sp.evolves_to_id)

    abbrev check_evolution : String → Result Error OwnedCreature → Result Error OwnedCreature
    check_evolution owner_id (err e) = err e
    check_evolution owner_id (ok oc) =
        if not (str_eq oc.owner_id owner_id)
        then err not_owner
        else next_form oc (dex.species oc.inst.dex_id)

    abbrev stored : OwnedCreature → Option Error × R.State → Result Error OwnedCreature × R.State
    stored oc (some e, s) = (err e, s)
    stored oc (none, s) = (ok oc, s)

    pub evolve : R.State → String → String → Result Error OwnedCreature × R.State
    evolve s owner_id creature_id = elim (check_evolution owner_id (R.get_creature s creature_id)) [
      | err e ↦ (err e, s)
      | ok oc ↦ stored oc (R.update_creature s oc)
    ]
