-- ===== src/Profile/MemRepo.antt =====
-- services/profile/internal/repo_memory.go: the in-memory `Repo`.
pub mod Laws
use pokecatch.Prelude.{String, Bool, Option, none, some, List, [], ◌∷◌, str_eq, if◌then◌else◌}
use pokecatch.Prelude.Outcome.{Result, ok, err}
use pokecatch.Prelude.Dict
use pokecatch.Prelude.Dict.{Dict}
use pokecatch.Creatures.Model.{zero_instance}
use pokecatch.Profile.Repo.{
  OwnedCreature, OwnershipTransfer, Error, creature_not_found, not_owner, Repo,
}

pub record MemRepo : Type 0 where
  pub creatures : Dict OwnedCreature
  pub teams : Dict (List String)

abbrev pub new_mem_repo : MemRepo
new_mem_repo = record { creatures = Dict.empty; teams = Dict.empty }

unfoldable pub add_creature : MemRepo → OwnedCreature → Option Error × MemRepo
add_creature r oc = (none, record r { creatures = Dict.put r.creatures oc.inst.instance_id oc })

abbrev found : Option OwnedCreature → Result Error OwnedCreature
found none = err creature_not_found
found (some oc) = ok oc

unfoldable pub get_creature : MemRepo → String → Result Error OwnedCreature
get_creature r id = found (Dict.get r.creatures id)

unfoldable pub update_creature : MemRepo → OwnedCreature → Option Error × MemRepo
update_creature r oc = elim (Dict.get r.creatures oc.inst.instance_id) [
  | none ↦ (some creature_not_found, r)
  | some _ ↦ (none, record r { creatures = Dict.put r.creatures oc.inst.instance_id oc })
]

unfoldable pub set_team : MemRepo → String → List String → Option Error × MemRepo
set_team r owner_id ids = (none, record r { teams = Dict.put r.teams owner_id ids })

abbrev team_or_empty : Option (List String) → List String
team_or_empty none = []
team_or_empty (some ids) = ids

unfoldable pub get_team : MemRepo → String → Result Error (List String)
get_team r owner_id = ok (team_or_empty (Dict.get r.teams owner_id))

unfoldable pub transfer_ownership : MemRepo → String → String → String → Option Error × MemRepo
transfer_ownership r creature_id from_id to_id = elim (Dict.get r.creatures creature_id) [
  | none ↦ (some creature_not_found, r)
  | some oc ↦
      if str_eq oc.owner_id from_id
      then (
        none,
        record r { creatures = Dict.put r.creatures creature_id (record oc { owner_id = to_id }) },
      )
      else (some not_owner, r)
]

-- Phase 1 of TransferBatch: every transfer against the current state.
unfoldable pub check_batch : MemRepo → List OwnershipTransfer → Option Error
check_batch r [] = none
check_batch r (t ∷ ts) = elim (Dict.get r.creatures t.creature_id) [
  | none ↦ some creature_not_found
  | some oc ↦ if str_eq oc.owner_id t.from_id then check_batch r ts else some not_owner
]

-- r.creatures[id] read with no test: the zero value if the id is missing.
abbrev zero_default : Option OwnedCreature → OwnedCreature
zero_default none = record { inst = zero_instance; owner_id = "" }
zero_default (some oc) = oc

-- One round of phase 2.
unfoldable pub apply_transfer : MemRepo → OwnershipTransfer → MemRepo
apply_transfer r t =
    let oc : OwnedCreature = zero_default (Dict.get r.creatures t.creature_id) in
    record r { creatures = Dict.put r.creatures t.creature_id (record oc { owner_id = t.to_id }) }

unfoldable pub apply_batch : MemRepo → List OwnershipTransfer → MemRepo
apply_batch r [] = r
apply_batch r (t ∷ ts) = apply_batch (apply_transfer r t) ts

unfoldable pub transfer_batch : MemRepo → List OwnershipTransfer → Option Error × MemRepo
transfer_batch r ts = elim (check_batch r ts) [
  | some e ↦ (some e, r)
  | none ↦ (none, apply_batch r ts)
]

abbrev pub mem_repo : Repo
mem_repo = record {
  State = MemRepo;
  add_creature = add_creature;
  get_creature = get_creature;
  update_creature = update_creature;
  set_team = set_team;
  get_team = get_team;
  transfer_ownership = transfer_ownership;
  transfer_batch = transfer_batch;
}
