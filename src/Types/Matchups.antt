-- ===== src/Types/Matchups.antt =====
-- Facts of the effectiveness matrix of pkg/types/types.go.
pub mod Tests
use pokecatch.Prelude.{
  ℕ, zero, suc, ◌*◌, ◌≤◌, ◌≡◌, refl, Bool, true, false, ◌&&◌, ◌||◌, arith, ltb, leb, ◌==◌, eq_iff,
  inl, inr, Bool-cases, if◌then◌else◌,
}
use pokecatch.Types.{Element, neutral, spectre, element_count, effectiveness, dual_effectiveness}

-- A test that every code up to a bound passes, by evaluation.
up_to : (Element → Bool) → ℕ → Bool
up_to test zero = test 0
up_to test (suc top) = up_to test top && test (suc top)

passes :
    (test : Element → Bool) (top : ℕ) (code : Element)
    → code ≤ top
    → up_to test top ≡ true
    → test code ≡ true
unfolding up_to
passes test zero code small all = let same : code ≡ 0 = omega arith in rw same all
passes test (suc top) code small all = elim (Bool-cases (code == suc top)) [
  | inl last ↦ let same : code ≡ suc top = ground arith in rw same (ground arith)
  | inr below ↦ passes test top code (ground arith) (ground arith)
]

-- No damage, a half, one, or two: in halves.
in_halves : ℕ → Bool
in_halves m = m == 0 || m == 1 || m == 2 || m == 4

-- No damage, a quarter, a half, one, two, or four: in quarters.
unfoldable pub in_quarters : ℕ → Bool
in_quarters m = m == 0 || m == 1 || m == 2 || m == 4 || m == 8 || m == 16

table_in_halves : up_to (λ a. up_to (λ d. in_halves (effectiveness a d)) 11) 11 ≡ true
unfolding up_to effectiveness in_halves
table_in_halves = refl

out_of_matrix :
    (a d : Element) → (leb element_count a || leb element_count d) ≡ true → effectiveness a d ≡ 2
unfolding effectiveness
out_of_matrix a d e = rw (e, effectiveness) refl

effectiveness_in_halves : (a d : Element) → in_halves (effectiveness a d) ≡ true
unfolding in_halves
effectiveness_in_halves a d = elim (Bool-cases (leb element_count a || leb element_count d)) [
  | inl e ↦ rw (out_of_matrix a d e) refl
  | inr e ↦
      passes (λ d. in_halves (effectiveness a d)) 11 d (ground arith)
        (passes (λ a. up_to (λ d. in_halves (effectiveness a d)) 11) 11 a (ground arith)
          table_in_halves)
]

product_in_quarters :
    (m n : ℕ) → in_halves m ≡ true → in_halves n ≡ true → in_quarters (m * n) ≡ true
unfolding in_halves in_quarters
product_in_quarters zero n h k = ground arith
product_in_quarters (suc zero) n h k = ground arith
product_in_quarters (suc (suc zero)) n h k = ground arith
product_in_quarters (suc (suc (suc m))) n h k =
    let four : m ≡ 1 = ground arith in rw four (ground arith)

-- Whatever the three codes, also codes out of the matrix, the type multiplier is 0, 1/4, 1/2, 1,
-- 2 or 4.
pub dual_effectiveness-in_quarters :
    (attacker def1 def2 : Element) → in_quarters (dual_effectiveness attacker def1 def2) ≡ true
unfolding dual_effectiveness in_halves
dual_effectiveness-in_quarters attacker def1 def2 =
    let first = effectiveness_in_halves attacker def1 in
    let second = effectiveness_in_halves attacker def2 in
    elim (Bool-cases (def2 == def1)) [
      | inl e ↦ rw (e, dual_effectiveness) (product_in_quarters 2 _ refl first)
      | inr e ↦ rw (e, dual_effectiveness) (product_in_quarters _ _ first second)
    ]

against_neutral : up_to (λ a. effectiveness a neutral == (if a == spectre then 0 else 2)) 11 ≡ true
unfolding up_to effectiveness
against_neutral = refl

neutral_column : (a : Element) → effectiveness a neutral ≡ (if a == spectre then 0 else 2)
neutral_column a = elim (Bool-cases (leb element_count a)) [
  | inl e ↦ ground (arith, out_of_matrix a neutral)
  | inr e ↦ ground (
    arith,
    passes (λ a. effectiveness a neutral == (if a == spectre then 0 else 2)) 11 a (ground arith)
        against_neutral,
  )
]

-- A second element that is neutral leaves the multiplier of the first alone, except under an
-- attack of the spectre element, which then does nothing to any defender.
pub dual_effectiveness-neutral :
    (attacker def1 : Element)
    → dual_effectiveness attacker def1 neutral
      ≡ (if attacker == spectre then 0 else 2 * effectiveness attacker def1)
unfolding dual_effectiveness
dual_effectiveness-neutral attacker def1 = elim (Bool-cases (attacker == spectre)) [
  | inl q ↦
      let m : effectiveness attacker neutral ≡ 0 = ground (arith, neutral_column attacker) in
      elim (Bool-cases (neutral == def1)) [
        | inl e ↦ ground (arith, m)
        | inr e ↦ rw (q, e, m, dual_effectiveness) (ground arith)
      ]
  | inr q ↦
      let m : effectiveness attacker neutral ≡ 2 = ground (arith, neutral_column attacker) in
      elim (Bool-cases (neutral == def1)) [
        | inl e ↦ rw (q, e, dual_effectiveness) refl
        | inr e ↦ rw (q, e, m, dual_effectiveness) (ground arith)
      ]
]
