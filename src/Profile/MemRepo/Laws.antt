-- ===== src/Profile/MemRepo/Laws.antt =====
-- The in-memory repository has the properties that the use cases rely on.
use pokecatch.Prelude.{
  String, ◌≡◌, refl, Bool-cases, Option-cases, inl, inr, none, some, List, [], ◌∷◌, All, arith,
  str_eq, eq_iff, if◌then◌else◌,
}
use pokecatch.Prelude.Outcome.{Result, ok, err}
use pokecatch.Prelude.Dict
use pokecatch.Prelude.Dict.{get-put, dict_laws}
use pokecatch.Profile.Repo.{
  OwnedCreature, OwnershipTransfer, Error, creature_not_found, IsRepo, moved, reown, owner_of,
}
use pokecatch.Profile.MemRepo.{
  MemRepo, get_creature, update_creature, set_team, check_batch, apply_transfer, apply_batch,
  transfer_batch, mem_repo,
}

get_creature-apply_transfer :
    (r : MemRepo) (t : OwnershipTransfer) (j : String) (oc : OwnedCreature)
    → get_creature r t.creature_id ≡ ok oc
    → get_creature (apply_transfer r t) j
      ≡ (if str_eq t.creature_id j then reown t.to_id (get_creature r j) else get_creature r j)
unfolding get_creature apply_transfer
get_creature-apply_transfer r t j oc h = ground (
  arith,
  eq_iff t.creature_id j,
  get-put r.creatures t.creature_id j (record oc { owner_id = t.to_id }),
)

-- Every creature of the batch is there.
abbrev AllPresent : MemRepo → List OwnershipTransfer → Type 0
AllPresent r = All (λ t. (oc : OwnedCreature) × (get_creature r t.creature_id ≡ ok oc))

apply_transfer-AllPresent :
    (r : MemRepo) (t : OwnershipTransfer) (ts : List OwnershipTransfer) (oc : OwnedCreature)
    → get_creature r t.creature_id ≡ ok oc
    → AllPresent r ts
    → AllPresent (apply_transfer r t) ts
apply_transfer-AllPresent r t [] oc h p = tt
apply_transfer-AllPresent r t (u ∷ us) oc h p = (
  elim (Bool-cases (str_eq t.creature_id u.creature_id)) [
    | inl e ↦ (
      record p.0.0 { owner_id = t.to_id },
      rw (get_creature-apply_transfer r t u.creature_id oc h, e, p.0.1),
    )
    | inr e ↦ (p.0.0, rw (get_creature-apply_transfer r t u.creature_id oc h, e, p.0.1))
  ],
  apply_transfer-AllPresent r t us oc h p.1,
)

get_creature-apply_batch :
    (r : MemRepo) (ts : List OwnershipTransfer) (j : String)
    → AllPresent r ts
    → get_creature (apply_batch r ts) j ≡ moved ts j (get_creature r j)
unfolding apply_batch
get_creature-apply_batch r [] j p = refl
get_creature-apply_batch r (t ∷ ts) j p = rw (
  get_creature-apply_batch (apply_transfer r t) ts j
      (apply_transfer-AllPresent r t ts p.0.0 p.0.1 p.1),
  get_creature-apply_transfer r t j p.0.0 p.0.1,
)

module _ (r : MemRepo) where
  check_batch-owners :
      (ts : List OwnershipTransfer)
      → check_batch r ts ≡ none
      → All (λ t. owner_of (get_creature r t.creature_id) ≡ some t.from_id) ts
  unfolding check_batch get_creature
  check_batch-owners [] h = tt
  check_batch-owners (t ∷ ts) h = elim (Option-cases (Dict.get r.creatures t.creature_id)) [
    | inl e ↦ ground (arith, e)
    | inr (oc, e) ↦
        (ground (arith, e, eq_iff oc.owner_id t.from_id), check_batch-owners ts (ground (arith, e)))
  ]

  owners-AllPresent :
      (ts : List OwnershipTransfer)
      → All (λ t. owner_of (get_creature r t.creature_id) ≡ some t.from_id) ts
      → AllPresent r ts
  owners-AllPresent [] h = tt
  owners-AllPresent (t ∷ ts) h =
      (present (get_creature r t.creature_id) h.0, owners-AllPresent ts h.1)
    where
      present :
          (found : Result Error OwnedCreature)
          → owner_of found ≡ some t.from_id
          → (oc : OwnedCreature) × (found ≡ ok oc)
      present (ok oc) e = (oc, refl)
      present (err x) e = cc

update_missing :
    (s : MemRepo) (oc : OwnedCreature) (e : Error)
    → get_creature s oc.inst.instance_id ≡ err e
    → (e' : Error) × (update_creature s oc ≡ (some e', s))
unfolding get_creature update_creature
update_missing s oc e h = (creature_not_found, ground arith)

update_present :
    (s : MemRepo) (oc old : OwnedCreature)
    → get_creature s oc.inst.instance_id ≡ ok old
    → (s' : MemRepo) × (update_creature s oc ≡ (none, s'))
      × ((j : String)
          → get_creature s' j ≡ (if str_eq oc.inst.instance_id j then ok oc else get_creature s j))
unfolding get_creature update_creature
update_present s oc old h = (
  record s { creatures = Dict.put s.creatures oc.inst.instance_id oc },
  ground arith,
  λ j. ground (arith, get-put s.creatures oc.inst.instance_id j oc),
)

team_err :
    (s : MemRepo) (owner_id : String) (ids : List String) (e : Error)
    → (set_team s owner_id ids).0 ≡ some e
    → (set_team s owner_id ids).1 ≡ s
unfolding set_team
team_err s owner_id ids e h = absurd (cc h)

team_apart :
    (s : MemRepo) (owner_id : String) (ids : List String) (j : String)
    → get_creature (set_team s owner_id ids).1 j ≡ get_creature s j
unfolding set_team get_creature
team_apart s owner_id ids j = refl

batch_err :
    (s s' : MemRepo) (ts : List OwnershipTransfer) (e : Error)
    → transfer_batch s ts ≡ (some e, s')
    → s' ≡ s
unfolding transfer_batch
batch_err s s' ts e h = ground arith

batch_ok :
    (s s' : MemRepo) (ts : List OwnershipTransfer)
    → transfer_batch s ts ≡ (none, s')
    → All (λ t. owner_of (get_creature s t.creature_id) ≡ some t.from_id) ts
      × ((j : String) → get_creature s' j ≡ moved ts j (get_creature s j))
unfolding transfer_batch
batch_ok s s' ts h = elim (Option-cases (check_batch s ts)) [
  | inl e ↦
      let owners = check_batch-owners s ts e in
      let end : apply_batch s ts ≡ s' = ground (arith, e) in
      (owners, λ j. rw (← end) (get_creature-apply_batch s ts j (owners-AllPresent s ts owners)))
  | inr (x, e) ↦ ground (arith, e)
]

-- The in-memory repository has the laws of IsRepo: an update of a missing creature fails and
-- writes nothing, an update of a present one replaces it and no other; a write of a team leaves
-- the creatures as they were; a batch that fails writes nothing, and a batch that succeeds found
-- every creature with the owner it was to leave and moves each creature as its transfers say, the
-- last one for its new owner.
pub mem_repo-IsRepo : IsRepo mem_repo
mem_repo-IsRepo = record {
  update_missing = update_missing;
  update_present = update_present;
  team_err = team_err;
  team_apart = team_apart;
  batch_err = batch_err;
  batch_ok = batch_ok;
}
