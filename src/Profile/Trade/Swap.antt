-- ===== src/Profile/Trade/Swap.antt =====
-- What Commit does to the creatures.
use pokecatch.Prelude.{
  contains, String, ◌≡◌, ◌≢◌, refl, sym, Bool, true, false, inl, inr, Option, none, some, List, [],
  ◌∷◌, ◌++◌, arith, str_eq, eq_iff, Bool-cases, Option-cases, if◌then◌else◌, All, ◌∙◌, ap,
}
use pokecatch.Prelude.Outcome.{Result, ok, err}
use pokecatch.Prelude.Dict
use pokecatch.Prelude.Dict.{Dict, get-put}
use pokecatch.Profile.Repo.{
  Error, OwnedCreature, OwnershipTransfer, Repo, IsRepo, moved, reown, owner_of,
}
use pokecatch.Profile.Trade.{
  Trade, open_, committed, offer, is_locked, Manager, commit, transfers_of, transfers,
}

-- The creature `j` after the swap of the two offers.
abbrev pub swapped : Trade → String → Result Error OwnedCreature → Result Error OwnedCreature
swapped t j r =
    if contains (offer t t.initiator_id) j
    then reown t.partner_id r
    else if contains (offer t t.partner_id) j
    then reown t.initiator_id r
    else r

moved-append :
    (xs ys : List OwnershipTransfer) (j : String) (r : Result Error OwnedCreature)
    → moved (xs ++ ys) j r ≡ moved ys j (moved xs j r)
moved-append [] ys j r = refl
moved-append (t ∷ ts) ys j r = moved-append ts ys j _

reown-reown : (o : String) (r : Result Error OwnedCreature) → reown o (reown o r) ≡ reown o r
reown-reown o (ok oc) = refl
reown-reown o (err e) = refl

moved-transfers_of :
    (from to : String) (ids : List String) (j : String) (r : Result Error OwnedCreature)
    → moved (transfers_of from to ids) j r ≡ (if contains ids j then reown to r else r)
moved-transfers_of from to [] j r = refl
moved-transfers_of from to (i ∷ ids) j r =
    moved-transfers_of from to ids j (if str_eq i j then reown to r else r)
    ∙ ground (arith, reown-reown to r)

-- Two offers with no creature in common.
either {ℓ} :
    {A : Type ℓ} (p q : Bool) (f g : A → A) (r : A)
    → (p ≡ true → q ≡ true → ⊥)
    → (let s = if p then f r else r in if q then g s else s)
      ≡ (if p then f r else if q then g r else r)
either true true f g r h = absurd (h refl refl)
either true false f g r h = refl
either false q f g r h = refl

moved-transfers :
    (t : Trade) (j : String) (r : Result Error OwnedCreature)
    → (contains (offer t t.initiator_id) j ≡ true → contains (offer t t.partner_id) j ≡ true → ⊥)
    → moved (transfers t) j r ≡ swapped t j r
moved-transfers t j r h =
    moved-append (transfers_of a b (offer t a)) (transfers_of b a (offer t b)) j r
    ∙ ap (moved (transfers_of b a (offer t b)) j) (moved-transfers_of a b (offer t a) j r)
    ∙ moved-transfers_of b a (offer t b) j (if contains (offer t a) j then reown b r else r)
    ∙ either (contains (offer t a) j) (contains (offer t b) j) (reown b) (reown a) r h
  where
    a : String
    a = t.initiator_id

    b : String
    b = t.partner_id

module _ (P : String → Option String) where
  abbrev Owned : List OwnershipTransfer → Type 0
  Owned = All (λ t. P t.creature_id ≡ some t.from_id)

  Owned-append : (xs ys : List OwnershipTransfer) → Owned (xs ++ ys) → Owned xs × Owned ys
  Owned-append [] ys h = (tt, h)
  Owned-append (x ∷ xs) ys h = let (a, b) = Owned-append xs ys h.1 in ((h.0, a), b)

  owner-transfers_of :
      (from to : String) (ids : List String) (j : String)
      → Owned (transfers_of from to ids)
      → contains ids j ≡ true
      → P j ≡ some from
  owner-transfers_of from to [] j h c = cc
  owner-transfers_of from to (i ∷ ids) j h c = elim (Bool-cases (str_eq i j)) [
    | inl e ↦ ap P (sym ((eq_iff i j).0 e)) ∙ h.0
    | inr e ↦ owner-transfers_of from to ids j h.1 (ground arith)
  ]

module _ (R : Repo) (m m' : Manager R) (k : String) where
  pub commit-eq-none :
      (t : Trade)
      → Dict.get m.trades k ≡ some t
      → commit R m k ≡ (none, m')
      → (t.state ≡ open_)
        × (is_locked t t.initiator_id ≡ true)
        × (is_locked t t.partner_id ≡ true)
        × (R.transfer_batch m.repo (transfers t) ≡ (none, m'.repo))
        × (m'.trades ≡ Dict.put m.trades k (record t { state = committed }))
  unfolding commit
  commit-eq-none t e h = elim (Option-cases (R.transfer_batch m.repo (transfers t)).0) [
    | inl q ↦ (ground arith, ground arith, ground arith, ground arith, ground arith)
    | inr (x, q) ↦ absurd (ground arith)
  ]

-- Over a repository with the laws of IsRepo, a commit that returns an error has changed nothing,
-- neither in the repository nor in the trades.
pub commit_atomic :
    (R : Repo) (m m' : Manager R) (k : String) (e : Error)
    → IsRepo R
    → commit R m k ≡ (some e, m')
    → m' ≡ m
unfolding commit
commit_atomic R m m' k e law h = elim (Option-cases (Dict.get m.trades k)) [
  | inl q ↦ ground arith
  | inr (t, q) ↦ elim (Option-cases (R.transfer_batch m.repo (transfers t)).0) [
    | inl p ↦ ground arith
    | inr (x, p) ↦
        let back =
          law.batch_err m.repo (R.transfer_batch m.repo (transfers t)).1 (transfers t) x
            (ground arith) in
        ground (arith, back)
  ]
]

module _ (R : Repo) (m m' : Manager R) (k : String) (t : Trade) (law : IsRepo R)
    (here : Dict.get m.trades k ≡ some t) (two : t.initiator_id ≢ t.partner_id)
    (done : commit R m k ≡ (none, m')) where
  batch : R.transfer_batch m.repo (transfers t) ≡ (none, m'.repo)
  batch = (commit-eq-none R m m' k t here done).3

  abbrev owner_before : String → Option String
  owner_before j = owner_of (R.get_creature m.repo j)

  owners :
      (j : String)
      → (contains (offer t t.initiator_id) j ≡ true → owner_before j ≡ some t.initiator_id)
        × (contains (offer t t.partner_id) j ≡ true → owner_before j ≡ some t.partner_id)
  owners j =
      let (a, b) =
        Owned-append owner_before _ _ (law.batch_ok m.repo m'.repo (transfers t) batch).0 in
      (owner-transfers_of owner_before _ _ _ j a, owner-transfers_of owner_before _ _ _ j b)

  -- Over a repository with the laws of IsRepo, a commit that succeeds between two different
  -- accounts gives every creature of the one's offer to the other and the other way round, each
  -- unchanged but for its owner, and leaves every other creature as it was; before it each
  -- account owned what it offered.
  pub commit_swaps :
      (j : String)
      → (R.get_creature m'.repo j ≡ swapped t j (R.get_creature m.repo j))
        × (contains (offer t t.initiator_id) j ≡ true → owner_before j ≡ some t.initiator_id)
        × (contains (offer t t.partner_id) j ≡ true → owner_before j ≡ some t.partner_id)
  commit_swaps j =
      let (a, b) = owners j in
      (
        (law.batch_ok m.repo m'.repo (transfers t) batch).1 j
            ∙ moved-transfers t j (R.get_creature m.repo j) (λ x y. two (cc (a x, b y))),
        a,
        b,
      )
