-- ===== src/Profile/Listing/Pages.antt =====
-- What is left after one page of ListCreatures of services/profile/internal/repo_memory.go.
use pokecatch.Prelude.{
  ℕ, zero, suc, ◌≤◌, String, ◌≡◌, ◌↔◌, refl, sym, ap, subst, true, false, inl, inr, some, List, [],
  ◌∷◌, arith, Bool-cases, All, ltb, length, take, drop,
}
use pokecatch.Prelude.Int.{ℤ, pos, negsuc}
use pokecatch.Prelude.Order.{str_lt, str_lt_irrefl, str_lt_trans}
use pokecatch.Profile.Repo.{OwnedCreature}
use pokecatch.Profile.Collection.{page_limit}
use pokecatch.Profile.Listing.{id_of, cut, next_cursor}
use pokecatch.Profile.Listing.Members.{Lists, All-Lists}
use pokecatch.Profile.Listing.Sorted.{IsAbove, IsAscending}

pub drop-IsAscending : (n : ℕ) (xs : List OwnedCreature) → IsAscending xs → IsAscending (drop n xs)
drop-IsAscending zero xs h = h
drop-IsAscending (suc n) [] h = h
drop-IsAscending (suc n) (x ∷ xs) h = drop-IsAscending n xs h.1

pub length-drop : (n : ℕ) (xs : List OwnedCreature) → length (drop n xs) ≤ length xs
length-drop zero xs = omega arith
length-drop (suc n) [] = omega arith
length-drop (suc n) (x ∷ xs) = omega (arith, length-drop n xs)

take_whole : (n : ℕ) (xs : List OwnedCreature) → ltb n (length xs) ≡ false → take n xs ≡ xs
take_whole zero [] h = refl
take_whole zero (x ∷ xs) h = absurd (ground (arith, h))
take_whole (suc n) [] h = refl
take_whole (suc n) (x ∷ xs) h = ap (◌∷◌ x) (take_whole n xs (ground (arith, h)))

pub cut-take : (n : ℕ) (xs : List OwnedCreature) → cut (pos n) xs ≡ some (take n xs)
cut-take n xs = elim (Bool-cases (ltb n (length xs))) [
  | inl e ↦ rw e refl
  | inr e ↦ rw e (ap some (sym (take_whole n xs e)))
]

pub All-take :
    (P : OwnedCreature → Type 0) (n : ℕ) (xs : List OwnedCreature) → All P xs → All P (take n xs)
All-take P zero xs h = _
All-take P (suc n) [] h = _
All-take P (suc n) (x ∷ xs) h = (h.0, All-take P n xs h.1)

-- The cursor after a page is one of its ids.
pub next_cursor_holds :
    (P : String → Type 0) (x : OwnedCreature) (xs : List OwnedCreature)
    → All (λ y. P (id_of y)) (x ∷ xs)
    → P (next_cursor (x ∷ xs))
next_cursor_holds P x [] h = h.0
next_cursor_holds P x (y ∷ ys) h = next_cursor_holds P y ys h.1

-- What is left after a page is what lies beyond its cursor.
pub left_after :
    (k : ℕ) (x : OwnedCreature) (xs : List OwnedCreature) (z : OwnedCreature)
    → IsAscending (x ∷ xs)
    → Lists (drop k xs) z
      ↔ (Lists (x ∷ xs) z × (str_lt (next_cursor (x ∷ take k xs)) (id_of z) ≡ true))
left_after zero x xs z h = (
  λ m. (inr m, All-Lists (IsAbove x) xs z h.0 m),
  λ p. elim p.0 [ inl e ↦ absurd (cc (p.1, str_lt_irrefl (id_of x), e)) | inr m ↦ m ],
)
left_after (suc k) x [] z h = (
  λ m. elim m [ ],
  λ p. elim p.0 [ inl e ↦ absurd (cc (p.1, str_lt_irrefl (id_of x), e)) | inr m ↦ m ],
)
left_after (suc k) x (y ∷ ys) z h =
    let (to, from) = left_after k y ys z h.1 in
    let last = next_cursor (y ∷ take k ys) in
    let below : str_lt (id_of x) last ≡ true =
      next_cursor_holds (λ i. str_lt (id_of x) i ≡ true) y (take k ys)
        (h.0.0, All-take (IsAbove x) k ys h.0.1) in
    (
      λ m. (inr (to m).0, (to m).1),
      λ p. elim p.0 [
        | inl e ↦ absurd (
            cc (
              str_lt_irrefl (id_of z),
              str_lt_trans (id_of z) last (id_of z)
                  (subst (λ w. str_lt (id_of w) last ≡ true) e below) p.1,
            ))
        | inr m ↦ from (m, p.1)
      ],
    )

pub page_limit_pos : (limit : ℤ) → (k : ℕ) × (page_limit limit ≡ pos (suc k))
unfolding page_limit
page_limit_pos (negsuc n) = (49, ground arith)
page_limit_pos (pos zero) = (49, ground arith)
page_limit_pos (pos (suc n)) = elim (Bool-cases (ltb 100 (suc n))) [
  | inl e ↦ (49, ground (arith, e))
  | inr e ↦ (n, ground (arith, e))
]
