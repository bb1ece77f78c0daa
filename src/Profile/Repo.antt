-- ===== src/Profile/Repo.antt =====
-- services/profile/internal/collection.go: the persistence boundary `Repo` as a record of operations
-- on a state, and what its clients rely on. An operation that writes returns the state on its error
-- path too. A mutex makes each operation one step.
use pokecatch.Prelude.{String, ◌≡◌, Option, none, some, List, [], ◌∷◌, All, str_eq, if◌then◌else◌}
use pokecatch.Prelude.Outcome.{Result, ok, err}
use pokecatch.Creatures.Model.{Instance}

pub record OwnedCreature : Type 0 where
  pub inst : Instance
  pub owner_id : String

pub record OwnershipTransfer : Type 0 where
  pub creature_id : String
  pub from_id : String
  pub to_id : String

-- The error values of the package.
pub data Error : Type 0 where
  creature_not_found not_owner team_too_big team_dup empty_team : Error
  cannot_evolve level_too_low : Error
  trade_not_found not_participant trade_closed not_locked : Error
  -- an error of the database driver
  driver : Error

pub record Repo : Type 1 where
  pub State : Type 0
  pub add_creature : State → OwnedCreature → Option Error × State
  pub get_creature : State → String → Result Error OwnedCreature
  pub update_creature : State → OwnedCreature → Option Error × State
  pub set_team : State → String → List String → Option Error × State
  pub get_team : State → String → Result Error (List String)
  pub transfer_ownership : State → String → String → String → Option Error × State
  pub transfer_batch : State → List OwnershipTransfer → Option Error × State

-- A creature, if it is there, under a new owner.
abbrev pub reown : String → Result Error OwnedCreature → Result Error OwnedCreature
reown owner (ok oc) = ok (record oc { owner_id = owner })
reown owner (err e) = err e

-- What a batch makes of the creature `id`.
abbrev pub moved :
    List OwnershipTransfer → String → Result Error OwnedCreature → Result Error OwnedCreature
moved [] id r = r
moved (t ∷ ts) id r = moved ts id (if str_eq t.creature_id id then reown t.to_id r else r)

abbrev pub owner_of : Result Error OwnedCreature → Option String
owner_of (ok oc) = some oc.owner_id
owner_of (err e) = none

-- What the use cases rely on.
pub record IsRepo (R : Repo) : Type 0 where
  pub update_missing :
      (s : R.State) (oc : OwnedCreature) (e : Error)
      → R.get_creature s oc.inst.instance_id ≡ err e
      → (e' : Error) × (R.update_creature s oc ≡ (some e', s))
  pub update_present :
      (s : R.State) (oc old : OwnedCreature)
      → R.get_creature s oc.inst.instance_id ≡ ok old
      → (s' : R.State) × (R.update_creature s oc ≡ (none, s'))
        × ((j : String)
            → R.get_creature s' j
              ≡ (if str_eq oc.inst.instance_id j then ok oc else R.get_creature s j))
  -- a team is all or nothing too, and is apart from the creatures
  pub team_err :
      (s : R.State) (owner_id : String) (ids : List String) (e : Error)
      → (R.set_team s owner_id ids).0 ≡ some e
      → (R.set_team s owner_id ids).1 ≡ s
  pub team_apart :
      (s : R.State) (owner_id : String) (ids : List String) (j : String)
      → R.get_creature (R.set_team s owner_id ids).1 j ≡ R.get_creature s j
  -- all or nothing
  pub batch_err :
      (s s' : R.State) (ts : List OwnershipTransfer) (e : Error)
      → R.transfer_batch s ts ≡ (some e, s')
      → s' ≡ s
  pub batch_ok :
      (s s' : R.State) (ts : List OwnershipTransfer)
      → R.transfer_batch s ts ≡ (none, s')
      → All (λ t. owner_of (R.get_creature s t.creature_id) ≡ some t.from_id) ts
        × ((j : String) → R.get_creature s' j ≡ moved ts j (R.get_creature s j))
