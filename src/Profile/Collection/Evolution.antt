-- ===== src/Profile/Collection/Evolution.antt =====
-- What Evolve checks and what it changes.
use pokecatch.Prelude.{
  sym, ap, subst, ◌∙◌, String, ◌≡◌, false, inl, inr, refl, Bool-cases, some, arith, str_eq, eq_iff,
  Option-cases, if◌then◌else◌,
}
use pokecatch.Prelude.Int.{pos, ◌≤ℤ◌, eq_ℤ}
use pokecatch.Prelude.Outcome.{Result, ok, err, Result-cases}
use pokecatch.Creatures.Model.{Dex, Species}
use pokecatch.Profile.Repo.{OwnedCreature, Error, Repo, IsRepo, owner_of}
use pokecatch.Profile.Collection.Evolved.{IsEvolved, evolved-IsEvolved}
use pokecatch.Profile.Collection.{evolve, evolved, check_evolution}

module _ (R : Repo) {F : Type 0} (dex : Dex F) where
  -- What the caller may evolve: an own creature of a species with a next form in the catalogue, at
  -- its level or above.
  pub record MayEvolve (owner_id : String) (oc : OwnedCreature) (target : Species) : Type 0 where
    pub owned : oc.owner_id ≡ owner_id
    pub form : Species
    pub known : dex.species oc.inst.dex_id ≡ some form
    pub evolves : eq_ℤ form.evolves_to_id (pos 0) ≡ false
    pub grown : form.evolve_level ≤ℤ oc.inst.level
    pub next : dex.species form.evolves_to_id ≡ some target

  check_evolution-ok :
      (owner_id : String) (oc new : OwnedCreature)
      → check_evolution R dex owner_id (ok oc) ≡ ok new
      → (target : Species) × MayEvolve owner_id oc target × IsEvolved oc target new
  check_evolution-ok owner_id oc new h = elim (Option-cases (dex.species oc.inst.dex_id)) [
    | inl e ↦ absurd (ground (arith, e))
    | inr (sp, e) ↦ elim (Option-cases (dex.species sp.evolves_to_id)) [
      | inl q ↦ absurd (ground (arith, e, q))
      | inr (target, q) ↦ (
        target,
        record {
          owned = ground (arith, e, q, eq_iff oc.owner_id owner_id);
          form = sp;
          known = e;
          evolves = ground (arith, e, q);
          grown = ground (arith, e, q);
          next = q;
        },
        let same : evolved R dex oc target ≡ new = ground (arith, h, e, q) in
            subst (IsEvolved oc target) same (evolved-IsEvolved R dex oc target),
      )
    ]
  ]

  evolve_found :
      (s : R.State) (owner_id id : String) (new : OwnedCreature)
      → (evolve R dex s owner_id id).0 ≡ ok new
      → (oc : OwnedCreature) × (R.get_creature s id ≡ ok oc)
  unfolding evolve
  evolve_found s owner_id id new h = elim (Result-cases (R.get_creature s id)) [
    | inl (oc, e) ↦ (oc, e)
    | inr (x, e) ↦ absurd (ground (arith, h, e))
  ]

  -- Over a repository with the laws of IsRepo that has the creature under its own id, an
  -- evolution that succeeds was allowed (an own creature, of a species with a next form in the
  -- catalogue, at its level or above): the creature has the species number of the next form, and
  -- keeps its ability if the next form has it or lists none, and has the first that it lists if
  -- not; its owner, id, nickname, level, XP, IVs, EVs, nature, moves, status and hit points are
  -- as before, and so is every other creature.
  pub evolve_ok :
      (s s' : R.State) (owner_id id : String) (oc new : OwnedCreature)
      → IsRepo R
      → R.get_creature s id ≡ ok oc
      → oc.inst.instance_id ≡ id
      → evolve R dex s owner_id id ≡ (ok new, s')
      → (target : Species) × MayEvolve owner_id oc target
        × IsEvolved oc target new
        × ((j : String)
            → R.get_creature s' j ≡ (if str_eq id j then ok new else R.get_creature s j))
  unfolding evolve
  evolve_ok s s' owner_id id oc new law here key h =
      elim (Result-cases (check_evolution R dex owner_id (ok oc))) [
        | inr (x, e) ↦ absurd (ground (arith, e, here))
        | inl (n, e) ↦
            let (target, may, shape) = check_evolution-ok owner_id oc n e in
            let named : id ≡ n.inst.instance_id = sym (shape.instance_id ∙ key) in
            let (s'', written, reads) =
              law.update_present s n oc (subst (λ k. R.get_creature s k ≡ ok oc) named here) in
            let same : s'' ≡ s' = ground (arith, e, here, written) in
            let final : n ≡ new = ground (arith, e, here, written) in
            (
              target,
              may,
              subst (IsEvolved oc target) final shape,
              λ j. rw (← same, ← final, named) (reads j),
            )
      ]

  -- Over a repository with the laws of IsRepo, an evolution that fails leaves the repository as
  -- it was.
  pub evolve_err :
      (s s' : R.State) (owner_id id : String) (e : Error)
      → IsRepo R
      → evolve R dex s owner_id id ≡ (err e, s')
      → s' ≡ s
  unfolding evolve
  evolve_err s s' owner_id id e law h =
      elim (Result-cases (check_evolution R dex owner_id (R.get_creature s id))) [
        | inr (x, p) ↦ ground arith
        | inl (n, p) ↦ elim (Result-cases (R.get_creature s n.inst.instance_id)) [
          | inr (x, q) ↦ let (y, failed) = law.update_missing s n x q in ground (arith, p, failed)
          | inl (old, q) ↦
              let (s'', written, _) = law.update_present s n old q in
              absurd (ground (arith, p, written))
        ]
      ]

  -- No evolution changes an owner, if every creature is found under its own id.
  pub evolve_owners :
      (s : R.State) (owner_id id : String) (j : String)
      → IsRepo R
      → ((k : String) (oc : OwnedCreature) → R.get_creature s k ≡ ok oc → oc.inst.instance_id ≡ k)
      → owner_of (R.get_creature (evolve R dex s owner_id id).1 j) ≡ owner_of (R.get_creature s j)
  evolve_owners s owner_id id j law keyed =
      let r = evolve R dex s owner_id id in
      elim (Result-cases r.0) [
        | inr (e, p) ↦
            ap (λ (t : R.State). owner_of (R.get_creature t j))
              (evolve_err s r.1 owner_id id e law
                (ap (λ (x : Result Error OwnedCreature). (x, r.1)) p))
        | inl (new, p) ↦
            let (oc, here) = evolve_found s owner_id id new p in
            let (target, may, shape, reads) =
              evolve_ok s r.1 owner_id id oc new law here (keyed id oc here)
                (ap (λ (x : Result Error OwnedCreature). (x, r.1)) p) in
            let owner : new.owner_id ≡ oc.owner_id = shape.owner_id in
            elim (Bool-cases (str_eq id j)) [
              | inl e ↦
                  let same : id ≡ j = (eq_iff id j).0 e in
                  let there : R.get_creature s j ≡ ok oc = rw same at here in
                  rw (reads j, e, there) (ap some owner)
              | inr e ↦ rw (reads j, e) refl
            ]
      ]

  -- An evolution leaves every creature found under its own id.
  pub evolve_keyed :
      (s : R.State) (owner_id id : String)
      → IsRepo R
      → ((k : String) (oc : OwnedCreature) → R.get_creature s k ≡ ok oc → oc.inst.instance_id ≡ k)
      → (j : String) (oc : OwnedCreature) → R.get_creature (evolve R dex s owner_id id).1 j ≡ ok oc
      → oc.inst.instance_id ≡ j
  evolve_keyed s owner_id id law keyed j oc h =
      let r = evolve R dex s owner_id id in
      elim (Result-cases r.0) [
        | inr (e, p) ↦ keyed j oc (
            sym (
              ap (λ (t : R.State). R.get_creature t j)
                (evolve_err s r.1 owner_id id e law
                  (ap (λ (x : Result Error OwnedCreature). (x, r.1)) p)))
            ∙ h)
        | inl (new, p) ↦
            let (old, here) = evolve_found s owner_id id new p in
            let (target, may, shape, reads) =
              evolve_ok s r.1 owner_id id old new law here (keyed id old here)
                (ap (λ (x : Result Error OwnedCreature). (x, r.1)) p) in
            let own : new.inst.instance_id ≡ id = shape.instance_id ∙ keyed id old here in
            let found = sym (reads j) ∙ h in
            elim (Bool-cases (str_eq id j)) [
              | inl e ↦ let same : id ≡ j = (eq_iff id j).0 e in ground (arith, found, e, own, same)
              | inr e ↦ keyed j oc (ground (arith, found, e))
            ]
      ]
