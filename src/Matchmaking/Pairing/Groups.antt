-- ===== src/Matchmaking/Pairing/Groups.antt =====
-- What Pair of services/matchmaking/internal/matcher.go does with a pool of several groups.
use pokecatch.Prelude.{
  ℕ, ◌+◌, ◌≡◌, refl, ◌∙◌, Bool, true, not, inl, inr, String, List, [], ◌∷◌, arith, eq_iff, str_eq,
  All, All-append, contains, Distinct, Bool-cases, if◌then◌else◌,
}
use pokecatch.Prelude.Int.{ℤ}
use pokecatch.Prelude.Float.{Float64}
use pokecatch.Matchmaking.{Ticket, Policy, key_of, group_of, pair_from, pair, none_used}
use pokecatch.Matchmaking.Fair.{IsFair}
use pokecatch.Matchmaking.Pairing.{
  one_if, count, count_matched, count-append, count_matched-append, count_unused-none,
  pair_from-count, pair_from-IsFair,
}

module _ (fl : Float64) (p : Policy) (now : ℤ) where
  -- What sort.Slice is relied on for: it loses and adds no ticket.
  abbrev pub KeepsTickets : (List (Ticket fl.F) → List (Ticket fl.F)) → Type 0
  KeepsTickets sort =
      (test : Ticket fl.F → Bool) (ts : List (Ticket fl.F)) → count test (sort ts) ≡ count test ts

  -- The keys that the map is ranged over: each once, and those of all tickets.
  abbrev pub Ranges : List String → List (Ticket fl.F) → Type 0
  Ranges keys pool = Distinct keys × All (λ t. contains keys (key_of t) ≡ true) pool

  group_of-key :
      (k : String) (pool : List (Ticket fl.F)) → All (λ t. key_of t ≡ k) (group_of k pool)
  group_of-key k [] = tt
  group_of-key k (t ∷ ts) = elim (Bool-cases (str_eq (key_of t) k)) [
    | inl e ↦ rw (e, group_of) ((eq_iff (key_of t) k).0 e, group_of-key k ts)
    | inr e ↦ rw (e, group_of) (group_of-key k ts)
  ]

  abbrev elsewhere : String → Ticket fl.F → Bool
  elsewhere k t = not (str_eq (key_of t) k)

  count-zero :
      (k : String) (ts : List (Ticket fl.F))
      → All (λ t. key_of t ≡ k) ts
      → count (elsewhere k) ts ≡ 0
  count-zero k [] a = refl
  count-zero k (t ∷ ts) a = ground (arith, a, eq_iff (key_of t) k, count-zero k ts a.1)

  count-eq-zero :
      (k : String) (ts : List (Ticket fl.F))
      → count (elsewhere k) ts ≡ 0
      → All (λ t. key_of t ≡ k) ts
  count-eq-zero k [] h = tt
  count-eq-zero k (t ∷ ts) h =
      (ground (arith, eq_iff (key_of t) k, h), count-eq-zero k ts (ground (arith, h)))

  -- For a sort that loses and adds no ticket, every match is of two tickets with one text of
  -- region, bar and mode, its band is the distance of their ratings, and that distance is at most
  -- the cap and at most the base band widened for each second of waiting and by a quarter of the
  -- deviation of one of the two, or more than the hard timeout has passed since one of the two
  -- began to wait.
  pub pair-IsFair :
      (sort : List (Ticket fl.F) → List (Ticket fl.F)) (keys : List String)
      (pool : List (Ticket fl.F))
      → KeepsTickets sort
      → All (IsFair fl p now) (pair fl p now sort keys pool).0
  unfolding pair
  pair-IsFair sort [] pool law = tt
  pair-IsFair sort (k ∷ keys) pool law =
      All-append (IsFair fl p now) _ _
        (pair_from-IsFair fl p now k none_used 0 (sort (group_of k pool)) (
          count-eq-zero k _
            (law (elsewhere k) (group_of k pool) ∙ count-zero k _ (group_of-key k pool))))
        (pair-IsFair sort keys pool law)

  abbrev count_groups : (Ticket fl.F → Bool) → List String → List (Ticket fl.F) → ℕ
  count_groups test [] pool = 0
  count_groups test (k ∷ keys) pool = count test (group_of k pool) + count_groups test keys pool

  count_groups-nil :
      (test : Ticket fl.F → Bool) (keys : List String) → count_groups test keys [] ≡ 0
  count_groups-nil test [] = refl
  count_groups-nil test (k ∷ keys) = omega (arith, count_groups-nil test keys)

  -- One more ticket counts once in its group, and not in the others.
  count_groups-cons :
      (test : Ticket fl.F → Bool) (keys : List String) (t : Ticket fl.F) (ts : List (Ticket fl.F))
      → Distinct keys
      → count_groups test keys (t ∷ ts)
        ≡ (if contains keys (key_of t) then one_if (test t) else 0) + count_groups test keys ts
  count_groups-cons test [] t ts d = refl
  count_groups-cons test (k ∷ keys) t ts d =
      ground
        (arith, count_groups-cons test keys t ts d.1, d, eq_iff (key_of t) k, eq_iff k (key_of t))

  count_groups-all :
      (test : Ticket fl.F → Bool) (keys : List String) (pool : List (Ticket fl.F))
      → Ranges keys pool
      → count_groups test keys pool ≡ count test pool
  count_groups-all test keys [] h = count_groups-nil test keys
  count_groups-all test keys (t ∷ ts) h =
      let rest = count_groups-all test keys ts (h.0, h.1.1) in
      let one = count_groups-cons test keys t ts h.0 in ground (arith, rest, one, h.1.0)

  pair-count :
      (test : Ticket fl.F → Bool) (sort : List (Ticket fl.F) → List (Ticket fl.F))
      (keys : List String) (pool : List (Ticket fl.F))
      → KeepsTickets sort
      → let r = pair fl p now sort keys pool in
        count_matched test r.0 + count test r.1 ≡ count_groups test keys pool
  unfolding pair
  pair-count test sort [] pool law = refl
  pair-count test sort (k ∷ keys) pool law =
      let group = sort (group_of k pool) in
      let r = pair_from fl p now none_used 0 group in
      let rest = pair fl p now sort keys pool in
      omega (
        arith,
        count_matched-append test r.0 rest.0,
        count-append test r.1 rest.1,
        pair_from-count fl p now test none_used 0 group,
        count_unused-none test 0 group,
        law test (group_of k pool),
        pair-count test sort keys pool law,
      )

  -- For a sort that loses and adds no ticket, and a range over the keys of the groups that meets
  -- each key once and the keys of all tickets, no ticket is lost and none is used twice: whatever
  -- the test, as many tickets of the pool pass it as of the matches and the leftovers together.
  pub pair_conserves :
      (test : Ticket fl.F → Bool) (sort : List (Ticket fl.F) → List (Ticket fl.F))
      (keys : List String) (pool : List (Ticket fl.F))
      → KeepsTickets sort
      → Ranges keys pool
      → let r = pair fl p now sort keys pool in
        count_matched test r.0 + count test r.1 ≡ count test pool
  pair_conserves test sort keys pool law h =
      pair-count test sort keys pool law ∙ count_groups-all test keys pool h
