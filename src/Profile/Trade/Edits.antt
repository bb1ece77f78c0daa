-- ===== src/Profile/Trade/Edits.antt =====
-- What one call of the manager can do to one trade, as a relation between the trade before the call
-- and the trade after it.
use pokecatch.Prelude.{
  String, ◌≡◌, refl, true, false, not, ◌&&◌, subst, inl, inr, some, List, arith, str_eq,
  str_eq_refl, eq_iff, Option-cases, Bool-cases,
}
use pokecatch.Prelude.Outcome.{Result-cases, ok}
use pokecatch.Prelude.Dict
use pokecatch.Prelude.Dict.{get-put}
use pokecatch.Profile.Repo.{Repo}
use pokecatch.Profile.Trade.{
  Trade, open_, committed, cancelled, offer, is_locked, is_open, is_committed, is_participant,
  Manager, staged, check_owned, stage, lock, commit, cancel, open_trade, get_open, transfers,
  new_trade, Call, opens, stages, locks, commits, cancels, step,
}

-- A new offer of `b`: it replaces the offer of `b` only, and no participant's lock is left.
pub record IsStaged (t : Trade) (b : String) (ids : List String) (u : Trade) : Type 0 where
  pub offered : offer u b ≡ ids
  pub other_offers : (a : String) → str_eq b a ≡ false → offer u a ≡ offer t a
  pub unlocked : (a : String) → is_participant t a ≡ true → is_locked u a ≡ false
  pub id : u.id ≡ t.id
  pub initiator : u.initiator_id ≡ t.initiator_id
  pub partner : u.partner_id ≡ t.partner_id
  pub state : u.state ≡ t.state

-- What the call `c` makes of the trade `t` with the id `k`.
pub data Edit (k : String) (t : Trade) (c : Call) (u : Trade) : Type 0 where
  kept : u ≡ t → Edit k t c u
  staged_ :
      (b : String) (ids : List String)
      → c ≡ stages k b ids
      → is_participant t b ≡ true
      → t.state ≡ open_
      → IsStaged t b ids u
      → Edit k t c u
  locked_ :
      (b : String)
      → c ≡ locks k b
      → is_participant t b ≡ true
      → t.state ≡ open_
      → u ≡ record t { locked = Dict.put t.locked b true }
      → Edit k t c u
  committed_ :
      c ≡ commits k
      → t.state ≡ open_
      → is_locked t t.initiator_id ≡ true
      → is_locked t t.partner_id ≡ true
      → u ≡ record t { state = committed }
      → Edit k t c u
  cancelled_ :
      (b : String)
      → c ≡ cancels k b
      → is_participant t b ≡ true
      → is_committed t.state ≡ false
      → u ≡ record t { state = cancelled }
      → Edit k t c u

is_locked-staged :
    (a b : String) (t : Trade) (ids : List String)
    → is_participant t a ≡ true
    → is_locked (staged t b ids) a ≡ false
is_locked-staged a b t ids h = ground (
  arith,
  get-put (Dict.put t.locked t.initiator_id false) t.partner_id a false,
  get-put t.locked t.initiator_id a false,
  eq_iff t.partner_id a,
  eq_iff t.initiator_id a,
  eq_iff a t.partner_id,
  eq_iff a t.initiator_id,
)

staged-IsStaged : (t : Trade) (b : String) (ids : List String) → IsStaged t b ids (staged t b ids)
staged-IsStaged t b ids = record {
  offered = ground (arith, get-put t.offers b b ids, str_eq_refl b);
  other_offers = λ a h. ground (arith, get-put t.offers b a ids, h);
  unlocked = λ a h. is_locked-staged a b t ids h;
  id = refl;
  initiator = refl;
  partner = refl;
  state = refl;
}

-- Open does not hand out the id again.
abbrev pub IsFresh : String → Call → Type 0
IsFresh trade_id (opens id a b) = str_eq id trade_id ≡ false
IsFresh trade_id _ = Unit

get_open-eq-ok :
    (R : Repo) (m : Manager R) (k a : String) (v : Trade)
    → get_open R m k a ≡ ok v
    → (Dict.get m.trades k ≡ some v) × (is_participant v a ≡ true) × (v.state ≡ open_)
unfolding get_open
get_open-eq-ok R m k a v h = elim (Option-cases (Dict.get m.trades k)) [
  | inl e ↦ ground arith
  | inr (w, e) ↦ ground arith
]

module _ (R : Repo) (m : Manager R) (k : String) (t : Trade)
    (here : Dict.get m.trades k ≡ some t) where
  abbrev pub Edited : Call → Manager R → Type 0
  Edited c m' = (u : Trade) × (Dict.get m'.trades k ≡ some u) × Edit k t c u

  unchanged : (c : Call) (m' : Manager R) → m'.trades ≡ m.trades → Edited c m'
  unchanged c m' e = (t, rw e here, kept refl)

  -- A write of `u` under `j` where `j` is the id of a trade that may become `u`.
  written :
      (c : Call) (m' : Manager R) (j : String) (v u : Trade)
      → Dict.get m.trades j ≡ some v
      → m'.trades ≡ Dict.put m.trades j u
      → Edit j v c u
      → Edited c m'
  written c m' j v u there e edit = elim (Bool-cases (str_eq j k)) [
    | inl q ↦
        let same : v ≡ t = ground (arith, eq_iff j k) in
        let there : j ≡ k = (eq_iff j k).0 q in
        (
          u,
          rw (e, get-put m.trades j k u, q),
          subst (λ (w : Trade). Edit k w c u) same (subst (λ i. Edit i v c u) there edit),
        )
    | inr q ↦ (t, rw (e, get-put m.trades j k u, q) here, kept refl)
  ]

  stage-Edit :
      (j a : String) (ids : List String) → Edited (stages j a ids) (step R m (stages j a ids))
  unfolding step stage
  stage-Edit j a ids =
      let c = stages j a ids in
      let m' : Manager R = (stage R m j a ids).1 in
      elim (Result-cases (get_open R m j a)) [
        | inr (x, e) ↦ unchanged c m' (ground arith)
        | inl (v, e) ↦ elim (Option-cases (check_owned R m.repo a ids)) [
          | inr (x, p) ↦ unchanged c m' (ground arith)
          | inl p ↦
              let (there, member, fresh) = get_open-eq-ok R m j a v e in
              written c m' j v (staged v a ids) there (ground arith)
                (staged_ a ids refl member fresh (staged-IsStaged v a ids))
        ]
      ]

  lock-Edit : (j a : String) → Edited (locks j a) (step R m (locks j a))
  unfolding step lock
  lock-Edit j a =
      let c = locks j a in
      let m' : Manager R = (lock R m j a).1 in
      elim (Result-cases (get_open R m j a)) [
        | inr (x, e) ↦ unchanged c m' (ground arith)
        | inl (v, e) ↦
            let (there, member, fresh) = get_open-eq-ok R m j a v e in
            written c m' j v (record v { locked = Dict.put v.locked a true }) there (ground arith)
              (locked_ a refl member fresh refl)
      ]

  cancel-Edit : (j a : String) → Edited (cancels j a) (step R m (cancels j a))
  unfolding step cancel
  cancel-Edit j a =
      let c = cancels j a in
      let m' : Manager R = (cancel R m j a).1 in
      elim (Option-cases (Dict.get m.trades j)) [
        | inl e ↦ unchanged c m' (ground arith)
        | inr (v, e) ↦ elim (Bool-cases (is_participant v a && not (is_committed v.state))) [
          | inr q ↦ unchanged c m' (ground arith)
          | inl q ↦
              written c m' j v (record v { state = cancelled }) e (ground arith)
                (cancelled_ a refl (ground arith) (ground arith) refl)
        ]
      ]

  commit-Edit : (j : String) → Edited (commits j) (step R m (commits j))
  unfolding step commit
  commit-Edit j =
      let c = commits j in
      let m' : Manager R = (commit R m j).1 in
      elim (Option-cases (Dict.get m.trades j)) [
        | inl e ↦ unchanged c m' (ground arith)
        | inr (v, e) ↦
            elim (Bool-cases
              (is_open v.state && (is_locked v v.initiator_id && is_locked v v.partner_id))) [
                | inr q ↦ unchanged c m' (ground arith)
                | inl q ↦ elim (Option-cases (R.transfer_batch m.repo (transfers v)).0) [
                  | inr (x, p) ↦ unchanged c m' (ground arith)
                  | inl p ↦
                      written c m' j v (record v { state = committed }) e (ground arith)
                        (committed_ refl (ground arith) (ground arith) (ground arith) refl)
                ]
              ]
      ]

  open-Edit : (j a b : String) → str_eq j k ≡ false → Edited (opens j a b) (step R m (opens j a b))
  unfolding step open_trade
  open-Edit j a b h = (t, ground (arith, get-put m.trades j k (new_trade j a b)), kept refl)

  -- Every call of the manager that does not open the id again leaves a trade that exists in
  -- place, and does one thing to it: nothing, or, if the call is for its id: a new offer of a
  -- participant to an open trade, after which the other offers and the state are as before and no
  -- participant's lock is left; a lock of a participant of an open trade; a commit of an open
  -- trade with both locks set; or a cancellation by a participant of a trade that is not
  -- committed.
  pub step-Edit : (c : Call) → IsFresh k c → Edited c (step R m c)
  step-Edit (opens j a b) h = open-Edit j a b h
  step-Edit (stages j a ids) h = stage-Edit j a ids
  step-Edit (locks j a) h = lock-Edit j a
  step-Edit (commits j) h = commit-Edit j
  step-Edit (cancels j a) h = cancel-Edit j a
