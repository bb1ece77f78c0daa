-- ===== src/Matchmaking/Pairing.antt =====
-- What one group's loops of Pair in services/matchmaking/internal/matcher.go do with its tickets.
pub mod Groups
use pokecatch.Prelude.{
  subst, ℕ, zero, suc, ◌+◌, ◌≤◌, ◌≡◌, refl, ap, sym, ◌∙◌, Bool, true, false, not, ◌&&◌, ◌||◌, ◌⊎◌,
  inl, inr, String, Option, none, some, List, [], ◌∷◌, ◌++◌, arith, ◌==◌, eq_iff, str_eq, All,
  All-append, contains, Distinct, Bool-cases, Option-cases, if◌then◌else◌,
}
use pokecatch.Prelude.Int.{
  ℤ, pos, ◌+ℤ◌, ◌-ℤ◌, ◌*ℤ◌, ◌≤ℤ◌, ◌<ℤ◌, quot, ltb_ℤ, leb_ℤ, +ℤ_parts, -ℤ_parts, eq_of_parts,
}
use pokecatch.Prelude.Float.{Float64}
use pokecatch.Matchmaking.Fair.{
  IsDistance, Accepts, IsOverdue, IsFair, gap_of-IsDistance, is_allowed-fair,
}
use pokecatch.Matchmaking.{
  Ticket, Match, Policy, Best, mark, key_of, group_of, is_allowed, is_timed_out, band, gap_of,
  best_gap, consider, scan, pair_from, pair, none_used, is_beyond, left_over, paired, joined,
}

abbrev pub one_if : Bool → ℕ
one_if b = if b then 1 else 0

module _ {F : Type 0} (test : Ticket F → Bool) where
  -- How many tickets pass a test: on all tests together, which tickets there are and how often.
  abbrev pub count : List (Ticket F) → ℕ
  count [] = 0
  count (t ∷ ts) = one_if (test t) + count ts

  abbrev pub count_matched : List (Match F) → ℕ
  count_matched [] = 0
  count_matched (m ∷ ms) = one_if (test m.a) + one_if (test m.b) + count_matched ms

  abbrev pub count_unused : (ℕ → Bool) → ℕ → List (Ticket F) → ℕ
  count_unused used i [] = 0
  count_unused used i (t ∷ ts) =
      (if used i then 0 else one_if (test t)) + count_unused used (suc i) ts

  pub count-append : (xs ys : List (Ticket F)) → count (xs ++ ys) ≡ count xs + count ys
  count-append [] ys = omega arith
  count-append (x ∷ xs) ys = omega (arith, count-append xs ys)

  pub count_matched-append :
      (xs ys : List (Match F)) → count_matched (xs ++ ys) ≡ count_matched xs + count_matched ys
  count_matched-append [] ys = omega arith
  count_matched-append (x ∷ xs) ys = omega (arith, count_matched-append xs ys)

  count_unused-mark :
      (used : ℕ → Bool) (i j : ℕ) (ts : List (Ticket F))
      → suc i ≤ j
      → count_unused (mark used i) j ts ≡ count_unused used j ts
  count_unused-mark used i j [] h = refl
  count_unused-mark used i j (t ∷ ts) h =
      ground (arith, count_unused-mark used i (suc j) ts (omega arith))

  pub count_unused-none : (i : ℕ) (ts : List (Ticket F)) → count_unused none_used i ts ≡ count ts
  count_unused-none i [] = refl
  count_unused-none i (t ∷ ts) = omega (arith, count_unused-none (suc i) ts)

module _ {F : Type 0} where
  -- `b` is an unused ticket of the list that starts at the index `j`.
  abbrev Candidate : (ℕ → Bool) → ℕ → List (Ticket F) → Best F → Type 0
  Candidate used j [] b = ⊥
  Candidate used j (t ∷ ts) b =
      ((b.index ≡ j) × (b.ticket ≡ t) × (used j ≡ false)) ⊎ Candidate used (suc j) ts b

  Candidate-index :
      (used : ℕ → Bool) (j : ℕ) (ts : List (Ticket F)) (b : Best F)
      → Candidate used j ts b
      → j ≤ b.index
  Candidate-index used j [] b h = elim h [ ]
  Candidate-index used j (t ∷ ts) b (inl h) = omega (arith, h.0)
  Candidate-index used j (t ∷ ts) b (inr h) = omega (arith, Candidate-index used (suc j) ts b h)

  count_unused-Candidate :
      (test : Ticket F → Bool) (used : ℕ → Bool) (j : ℕ) (ts : List (Ticket F)) (b : Best F)
      → Candidate used j ts b
      → count_unused test used j ts
        ≡ one_if (test b.ticket) + count_unused test (mark used b.index) j ts
  count_unused-Candidate test used j [] b h = elim h [ ]
  count_unused-Candidate test used j (t ∷ ts) b (inl (e, s, f)) =
      let out = count_unused-mark test used b.index (suc j) ts (omega (arith, e)) in
      let same : test b.ticket ≡ test t = ap test s in ground (arith, out, same, e, f)
  count_unused-Candidate test used j (t ∷ ts) b (inr h) =
      let later = Candidate-index used (suc j) ts b h in
      let rest = count_unused-Candidate test used (suc j) ts b h in ground (arith, later, rest)

module _ (fl : Float64) (p : Policy) (now : ℤ) where
  abbrev IsBest : Ticket fl.F → Best fl.F → Type 0
  IsBest t b = (is_allowed fl p now t b.ticket ≡ true) × (b.gap ≡ gap_of fl p now t b.ticket)

  consider-eq-some :
      (t : Ticket fl.F) (j : ℕ) (u : Ticket fl.F) (start : Option (Best fl.F)) (b : Best fl.F)
      → consider fl p now t j u start ≡ some b
      → (start ≡ some b) ⊎ ((b.index ≡ j) × (b.ticket ≡ u) × IsBest t b)
  unfolding consider
  consider-eq-some t j u start b h =
      elim (Bool-cases (is_allowed fl p now t u && ltb_ℤ (gap_of fl p now t u) (best_gap start))) [
        | inl e ↦ inr (ground arith, ground arith, (ground arith, ground arith))
        | inr e ↦ inl (ground arith)
      ]

  -- The best of a scan is the one that it began with, or an unused ticket that is allowed.
  scan-eq-some :
      (t : Ticket fl.F) (used : ℕ → Bool) (j : ℕ) (us : List (Ticket fl.F))
      (start : Option (Best fl.F)) (b : Best fl.F)
      → scan fl p now t used j us start ≡ some b
      → (start ≡ some b) ⊎ (Candidate used j us b × IsBest t b)
  unfolding scan
  scan-eq-some t used j [] start b h = inl h
  scan-eq-some t used j (u ∷ us) start b h = elim (Bool-cases (used j)) [
    | inl e ↦ elim (scan-eq-some t used (suc j) us start b (ground (arith, h))) [
      | inl q ↦ inl q
      | inr (c, q) ↦ inr (inr c, q)
    ]
    | inr e ↦
        let next = consider fl p now t j u start in
        let here : next ≡ some b → (start ≡ some b) ⊎ (Candidate used j (u ∷ us) b × IsBest t b) =
          λ q. elim (consider-eq-some t j u start b q) [
            | inl same ↦ inl same
            | inr (x, y, z) ↦ inr (inl (x, y, e), z)
          ] in
        elim (Bool-cases (is_beyond fl p now t u)) [
          | inl far ↦ here (ground (arith, h))
          | inr near ↦ elim (scan-eq-some t used (suc j) us next b (ground (arith, h))) [
            | inl q ↦ here q
            | inr (c, q) ↦ inr (inr c, q)
          ]
        ]
  ]

  pub pair_from-count :
      (test : Ticket fl.F → Bool) (used : ℕ → Bool) (i : ℕ) (ts : List (Ticket fl.F))
      → let r = pair_from fl p now used i ts in
        count_matched test r.0 + count test r.1 ≡ count_unused test used i ts
  unfolding pair_from
  pair_from-count test used i [] = refl
  pair_from-count test used i (t ∷ ts) = elim (Bool-cases (used i)) [
    | inl e ↦ ground (arith, pair_from-count test used (suc i) ts)
    | inr e ↦ elim (Option-cases (scan fl p now t used (suc i) ts none)) [
      | inl q ↦ rw (e, pair_from, q) (ground (arith, e, pair_from-count test used (suc i) ts))
      | inr (b, q) ↦ elim (scan-eq-some t used (suc i) ts none b q) [
        | inl absurd_ ↦ absurd (cc absurd_)
        | inr (c, _) ↦
            let marked = mark (mark used b.index) i in
            let rest = pair_from-count test marked (suc i) ts in
            let one = count_unused-Candidate test used (suc i) ts b c in
            let same = count_unused-mark test (mark used b.index) i (suc i) ts (omega arith) in
            rw (e, pair_from, q) (omega (arith, rest, one, same))
      ]
    ]
  ]

  Candidate-key :
      (k : String) (used : ℕ → Bool) (j : ℕ) (ts : List (Ticket fl.F)) (b : Best fl.F)
      → Candidate used j ts b
      → All (λ t. key_of t ≡ k) ts
      → key_of b.ticket ≡ k
  Candidate-key k used j [] b h a = elim h [ ]
  Candidate-key k used j (t ∷ ts) b (inl (_, e, _)) a = ap key_of e ∙ a.0
  Candidate-key k used j (t ∷ ts) b (inr h) a = Candidate-key k used (suc j) ts b h a.1

  pub pair_from-IsFair :
      (k : String) (used : ℕ → Bool) (i : ℕ) (ts : List (Ticket fl.F))
      → All (λ t. key_of t ≡ k) ts
      → All (IsFair fl p now) (pair_from fl p now used i ts).0
  unfolding pair_from
  pair_from-IsFair k used i [] a = tt
  pair_from-IsFair k used i (t ∷ ts) a = elim (Bool-cases (used i)) [
    | inl e ↦ rw (e, pair_from) (pair_from-IsFair k used (suc i) ts a.1)
    | inr e ↦ elim (Option-cases (scan fl p now t used (suc i) ts none)) [
      | inl q ↦ rw (e, pair_from, q) (pair_from-IsFair k used (suc i) ts a.1)
      | inr (b, q) ↦ elim (scan-eq-some t used (suc i) ts none b q) [
        | inl absurd_ ↦ absurd (cc absurd_)
        | inr (c, (allowed, gap)) ↦
            rw (e, pair_from, q)
              (
                record {
                  distance =
                      subst (IsDistance fl p now t.mmr b.ticket.mmr) (sym gap)
                        (gap_of-IsDistance fl p now t b.ticket);
                  allowed =
                      subst
                        (λ d.
                          (Accepts fl p now t d ⊎ Accepts fl p now b.ticket d)
                          ⊎ (IsOverdue fl p now t ⊎ IsOverdue fl p now b.ticket))
                        (sym gap) (is_allowed-fair fl p now t b.ticket allowed);
                  together = a.0 ∙ sym (Candidate-key k used (suc i) ts b c a.1);
                },
                pair_from-IsFair k (mark (mark used b.index) i) (suc i) ts a.1,
              )
      ]
    ]
  ]
