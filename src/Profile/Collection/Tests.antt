-- ===== src/Profile/Collection/Tests.antt =====
-- Runs of SetTeam and Evolve of services/profile/internal over the in-memory repository.
use pokecatch.Prelude.{String, ◌≡◌, ◌⊎◌, refl, some, [], ◌∷◌, str_eq, if◌then◌else◌}
use pokecatch.Prelude.Outcome.{ok, err}
use pokecatch.Prelude.Dict
use pokecatch.Creatures.Samples.{young_sprout, bloom, two_species}
use pokecatch.Profile.Repo.{OwnedCreature, Error, not_owner}
use pokecatch.Profile.MemRepo
use pokecatch.Profile.MemRepo.{MemRepo, mem_repo}
use pokecatch.Profile.MemRepo.Laws.{mem_repo-IsRepo}
use pokecatch.Profile.Collection.{set_team, evolve, evolved, pick_ability, has_ability}
use pokecatch.Profile.Collection.Team.{IsTeam, set_team_exact}
use pokecatch.Profile.Collection.Evolved.{IsEvolved}
use pokecatch.Profile.Collection.Evolution.{MayEvolve, evolve_ok}

abbrev pub sprout_of_ann : OwnedCreature
sprout_of_ann = record { inst = young_sprout; owner_id = "ann" }

abbrev pub one_creature : MemRepo
one_creature = record { creatures = Dict.put Dict.empty "c1" sprout_of_ann; teams = Dict.empty }

abbrev bloom_of_ann : OwnedCreature
bloom_of_ann = evolved mem_repo two_species sprout_of_ann bloom

abbrev one_bloom : MemRepo
one_bloom = record { creatures = Dict.put Dict.empty "c1" bloom_of_ann; teams = Dict.empty }

set_team_exact_example :
    (IsTeam mem_repo one_creature "ann" ("c1" ∷ [])
      × (set_team mem_repo one_creature "ann" ("c1" ∷ [])
          ≡ mem_repo.set_team one_creature "ann" ("c1" ∷ [])))
    ⊎ ((¬ IsTeam mem_repo one_creature "ann" ("c1" ∷ []))
        × (e : Error) × (set_team mem_repo one_creature "ann" ("c1" ∷ []) ≡ (some e, one_creature)))
set_team_exact_example = set_team_exact mem_repo one_creature "ann" ("c1" ∷ [])

here : mem_repo.get_creature one_creature "c1" ≡ ok sprout_of_ann
unfolding MemRepo.get_creature Dict.get Dict.put Dict.empty
here = refl

evolves : evolve mem_repo two_species one_creature "ann" "c1" ≡ (ok bloom_of_ann, one_bloom)
unfolding evolve pick_ability has_ability MemRepo.get_creature MemRepo.update_creature Dict.get
    Dict.put Dict.empty
evolves = refl

evolve_ok_example :
    (target : _) × MayEvolve mem_repo two_species "ann" sprout_of_ann target
    × IsEvolved sprout_of_ann target bloom_of_ann
    × ((j : String)
        → mem_repo.get_creature one_bloom j
          ≡ (if str_eq "c1" j then ok bloom_of_ann else mem_repo.get_creature one_creature j))
evolve_ok_example =
    evolve_ok mem_repo two_species one_creature one_bloom "ann" "c1" sprout_of_ann bloom_of_ann
      mem_repo-IsRepo here refl evolves

evolves_for_its_owner :
    evolve mem_repo two_species one_creature "bob" "c1" ≡ (err not_owner, one_creature)
unfolding evolve MemRepo.get_creature Dict.get Dict.put Dict.empty
evolves_for_its_owner = refl
