-- ===== src/Matchmaking/Tests.antt =====
-- A run of the pairing of services/matchmaking/internal/matcher.go.
use pokecatch.Prelude.{
  ℕ, ◌+◌, ◌≡◌, refl, Bool, String, List, [], ◌∷◌, All, arith, str_eq, Bool-cases, inl, inr,
  if◌then◌else◌,
}
use pokecatch.Prelude.Int.{pos, leb_ℤ}
use pokecatch.Prelude.Float.{fixed_point}
use pokecatch.Matchmaking.{Ticket, default_policy, pair}
use pokecatch.Matchmaking.Fair.{IsFair}
use pokecatch.Matchmaking.Pairing.{count, count_matched}
use pokecatch.Matchmaking.Pairing.Groups.{KeepsTickets, Ranges, pair-IsFair, pair_conserves}

-- Insertion by rating.
insert : Ticket fixed_point.F → List (Ticket fixed_point.F) → List (Ticket fixed_point.F)
insert t [] = t ∷ []
insert t (u ∷ us) = if leb_ℤ t.mmr u.mmr then t ∷ u ∷ us else u ∷ insert t us

unfoldable by_rating : List (Ticket fixed_point.F) → List (Ticket fixed_point.F)
unfolding insert
by_rating [] = []
by_rating (t ∷ ts) = insert t (by_rating ts)

count-insert :
    (test : Ticket fixed_point.F → Bool) (t : Ticket fixed_point.F)
    (ts : List (Ticket fixed_point.F))
    → count test (insert t ts) ≡ count test (t ∷ ts)
unfolding insert
count-insert test t [] = refl
count-insert test t (u ∷ us) = elim (Bool-cases (leb_ℤ t.mmr u.mmr)) [
  | inl e ↦ rw (e, insert) refl
  | inr e ↦ rw (e, insert) (omega (arith, count-insert test t us))
]

by_rating-KeepsTickets : KeepsTickets fixed_point default_policy (pos 0) by_rating
unfolding by_rating
by_rating-KeepsTickets test [] = refl
by_rating-KeepsTickets test (t ∷ ts) =
    omega (arith, count-insert test t (by_rating ts), by_rating-KeepsTickets test ts)

abbrev ticket : String → ℕ → String → Ticket fixed_point.F
ticket account_id mmr region = record {
  account_id = account_id;
  mmr = pos mmr;
  rd = fixed_point.of_int (pos 60);
  region = region;
  mode = "ranked";
  wait_started = pos 0;
}

abbrev pool : List (Ticket fixed_point.F)
pool = ticket "b" 1030 "eu" ∷ ticket "a" 1000 "eu" ∷ ticket "c" 1010 "na" ∷ []

abbrev regions : List String
regions = "na|ranked" ∷ "eu|ranked" ∷ []

abbrev is_ann : Ticket fixed_point.F → Bool
is_ann t = str_eq t.account_id "a"

pool_ranged : Ranges fixed_point default_policy (pos 0) regions pool
pool_ranged = ((refl, (refl, tt)), (refl, (refl, (refl, tt))))

pair_conserves_example :
    count_matched is_ann (pair fixed_point default_policy (pos 0) by_rating regions pool).0
      + count is_ann (pair fixed_point default_policy (pos 0) by_rating regions pool).1
    ≡ count is_ann pool
pair_conserves_example =
    pair_conserves fixed_point default_policy (pos 0) is_ann by_rating regions pool
      by_rating-KeepsTickets pool_ranged

pair-IsFair_example :
    All
      (IsFair fixed_point default_policy (pos 0))
      (pair fixed_point default_policy (pos 0) by_rating regions pool).0
pair-IsFair_example =
    pair-IsFair fixed_point default_policy (pos 0) by_rating regions pool by_rating-KeepsTickets
