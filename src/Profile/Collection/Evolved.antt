-- ===== src/Profile/Collection/Evolved.antt =====
-- What an evolution of services/profile/internal/evolve.go makes of a creature, field by field.
use pokecatch.Prelude.{
  ◌≡◌, inl, inr, refl, Bool-cases, arith, if◌then◌else◌, true, ◌⊎◌, ◌↔◌, List, [], ◌∷◌,
}
use pokecatch.Creatures.Model.{Dex, Species, PassiveAbility, ability_code, is_ability}
use pokecatch.Profile.Repo.{OwnedCreature, Repo}
use pokecatch.Profile.Collection.{evolved, has_ability, first_ability, pick_ability}

-- Whether the abilities have the held one.
abbrev pub Holds : List PassiveAbility → PassiveAbility → Type 0
Holds [] held = ⊥
Holds (a ∷ as_) held = (ability_code a ≡ ability_code held) ⊎ Holds as_ held

-- The ability that an evolution leaves a creature with: its own where the species has it or has
-- none, and otherwise the first of the species.
abbrev pub IsPicked : List PassiveAbility → PassiveAbility → PassiveAbility → Type 0
IsPicked [] held new = new ≡ held
IsPicked (a ∷ as_) held new =
    (Holds (a ∷ as_) held × (new ≡ held)) ⊎ ((¬ Holds (a ∷ as_) held) × (new ≡ a))

has_ability-Holds :
    (as_ : List PassiveAbility) (held : PassiveAbility)
    → (has_ability as_ held ≡ true) ↔ Holds as_ held
unfolding has_ability
has_ability-Holds [] held = (λ h. absurd (cc h), λ h. elim h [ ])
has_ability-Holds (a ∷ as_) held =
    let (to, from) = has_ability-Holds as_ held in
    elim (Bool-cases (is_ability a held)) [
      | inl e ↦ (λ h. inl (ground (arith, e)), λ h. ground (arith, e))
      | inr e ↦ (
        λ h. inr (to (ground (arith, h, e))),
        λ h. elim h [
          | inl q ↦ absurd (ground (arith, q, e))
          | inr q ↦ let r = from q in ground (arith, r, e)
        ],
      )
    ]

pick_ability-IsPicked :
    (sp : Species) (held : PassiveAbility) → IsPicked sp.abilities held (pick_ability sp held)
unfolding pick_ability has_ability
pick_ability-IsPicked sp held = picked sp.abilities
  where
    picked :
        (as_ : List PassiveAbility)
        → IsPicked as_ held (if has_ability as_ held then held else first_ability as_ held)
    picked [] = refl
    picked (a ∷ as_) = elim (Bool-cases (has_ability (a ∷ as_) held)) [
      | inl e ↦ inl ((has_ability-Holds (a ∷ as_) held).0 e, ground (arith, e))
      | inr e ↦
          inr (λ h. absurd (cc (e, (has_ability-Holds (a ∷ as_) held).1 h)), ground (arith, e))
    ]

-- What an evolution makes of a creature: the next form's species and ability, and the rest kept.
pub record IsEvolved (oc : OwnedCreature) (target : Species) (new : OwnedCreature) : Type 0 where
  pub dex_id : new.inst.dex_id ≡ target.dex_id
  pub ability : IsPicked target.abilities oc.inst.ability new.inst.ability
  pub owner_id : new.owner_id ≡ oc.owner_id
  pub instance_id : new.inst.instance_id ≡ oc.inst.instance_id
  pub nickname : new.inst.nickname ≡ oc.inst.nickname
  pub level : new.inst.level ≡ oc.inst.level
  pub xp : new.inst.xp ≡ oc.inst.xp
  pub ivs : new.inst.ivs ≡ oc.inst.ivs
  pub evs : new.inst.evs ≡ oc.inst.evs
  pub nature : new.inst.nature ≡ oc.inst.nature
  pub skill_ids : new.inst.skill_ids ≡ oc.inst.skill_ids
  pub status : new.inst.status ≡ oc.inst.status
  pub current_hp : new.inst.current_hp ≡ oc.inst.current_hp

module _ (R : Repo) {F : Type 0} (dex : Dex F) where
  pub evolved-IsEvolved :
      (oc : OwnedCreature) (target : Species) → IsEvolved oc target (evolved R dex oc target)
  evolved-IsEvolved oc target = record {
    dex_id = refl;
    ability = pick_ability-IsPicked target oc.inst.ability;
    owner_id = refl;
    instance_id = refl;
    nickname = refl;
    level = refl;
    xp = refl;
    ivs = refl;
    evs = refl;
    nature = refl;
    skill_ids = refl;
    status = refl;
    current_hp = refl;
  }
