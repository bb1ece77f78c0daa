-- ===== src/Profile/Listing/Members.antt =====
-- Which creatures the lists of services/profile/internal/repo_memory.go have, and how many.
use pokecatch.Prelude.{
  length, suc, ◌≤◌, String, ◌≡◌, ◌↔◌, refl, ◌∙◌, ap, subst, if_holds, true, ◌⊎◌, inl, inr, List, [],
  ◌∷◌, arith, All,
}
use pokecatch.Prelude.Order.{str_lt}
use pokecatch.Profile.Repo.{OwnedCreature}
use pokecatch.Profile.Listing.{id_of, is_listed, owned_after, insert_by_id, sort_by_id}

-- `oc` is one of the list.
abbrev pub Lists : List OwnedCreature → OwnedCreature → Type 0
Lists [] oc = ⊥
Lists (x ∷ xs) oc = (x ≡ oc) ⊎ Lists xs oc

pub All-Lists :
    (P : OwnedCreature → Type 0) (xs : List OwnedCreature) (x : OwnedCreature)
    → All P xs
    → Lists xs x
    → P x
All-Lists P [] x h m = elim m [ ]
All-Lists P (y ∷ ys) x h (inl e) = subst P e h.0
All-Lists P (y ∷ ys) x h (inr m) = All-Lists P ys x h.1 m

-- The members of a sorted list, and of the listed ones.
Lists-insert_by_id :
    (oc : OwnedCreature) (xs : List OwnedCreature) (z : OwnedCreature)
    → Lists (insert_by_id oc xs) z ↔ Lists (oc ∷ xs) z
unfolding insert_by_id
Lists-insert_by_id oc [] z = (λ m. m, λ m. m)
Lists-insert_by_id oc (x ∷ xs) z =
    let (to, from) = Lists-insert_by_id oc xs z in
    if_holds (λ ys. Lists ys z ↔ Lists (oc ∷ x ∷ xs) z) (str_lt (id_of oc) (id_of x))
      (λ _. (λ m. m, λ m. m))
      (λ _. (
        λ m. elim m [
          | inl e ↦ inr (inl e)
          | inr n ↦ elim (to n) [ inl e ↦ inl e | inr k ↦ inr (inr k) ]
        ],
        λ m. elim m [
          | inl e ↦ inr (from (inl e))
          | inr n ↦ elim n [ inl e ↦ inl e | inr k ↦ inr (from (inr k)) ]
        ],
      ))

pub Lists-sort_by_id :
    (xs : List OwnedCreature) (z : OwnedCreature) → Lists (sort_by_id xs) z ↔ Lists xs z
unfolding sort_by_id
Lists-sort_by_id [] z = (λ m. m, λ m. m)
Lists-sort_by_id (x ∷ xs) z =
    let (to, from) = Lists-sort_by_id xs z in
    let (to_cons, from_cons) = Lists-insert_by_id x (sort_by_id xs) z in
    (
      λ m. elim (to_cons m) [ inl e ↦ inl e | inr n ↦ inr (to n) ],
      λ m. from_cons (elim m [ inl e ↦ inl e | inr n ↦ inr (from n) ]),
    )

pub Lists-owned_after :
    (owner_id cursor : String) (xs : List OwnedCreature) (z : OwnedCreature)
    → Lists (owned_after owner_id cursor xs) z ↔ (Lists xs z × (is_listed owner_id cursor z ≡ true))
unfolding owned_after
Lists-owned_after owner_id cursor [] z = (λ m. elim m [ ], λ m. elim m.0 [ ])
Lists-owned_after owner_id cursor (x ∷ xs) z =
    let (to, from) = Lists-owned_after owner_id cursor xs z in
    if_holds (λ ys. Lists ys z ↔ (Lists (x ∷ xs) z × (is_listed owner_id cursor z ≡ true)))
      (is_listed owner_id cursor x)
      (λ e. (
        λ m. elim m [
          | inl s ↦ (inl s, subst (λ w. is_listed owner_id cursor w ≡ true) s e)
          | inr n ↦ (inr (to n).0, (to n).1)
        ],
        λ p. elim p.0 [ inl s ↦ inl s | inr n ↦ inr (from (n, p.1)) ],
      ))
      (λ e. (
        λ m. (inr (to m).0, (to m).1),
        λ p. elim p.0 [ inl s ↦ absurd (cc (p.1, e, s)) | inr n ↦ from (n, p.1) ],
      ))

pub All-of_Lists :
    (P : OwnedCreature → Type 0) (xs : List OwnedCreature)
    → ((z : OwnedCreature) → Lists xs z → P z)
    → All P xs
All-of_Lists P [] f = _
All-of_Lists P (x ∷ xs) f = (f x (inl refl), All-of_Lists P xs (λ z m. f z (inr m)))

length-insert_by_id :
    (oc : OwnedCreature) (xs : List OwnedCreature) → length (insert_by_id oc xs) ≡ suc (length xs)
unfolding insert_by_id
length-insert_by_id oc [] = refl
length-insert_by_id oc (x ∷ xs) = ground (arith, length-insert_by_id oc xs)

pub length-sort_by_id : (xs : List OwnedCreature) → length (sort_by_id xs) ≡ length xs
unfolding sort_by_id
length-sort_by_id [] = refl
length-sort_by_id (x ∷ xs) = length-insert_by_id x (sort_by_id xs) ∙ ap suc (length-sort_by_id xs)

pub length-owned_after :
    (owner_id cursor : String) (xs : List OwnedCreature)
    → length (owned_after owner_id cursor xs) ≤ length xs
unfolding owned_after
length-owned_after owner_id cursor [] = omega arith
length-owned_after owner_id cursor (x ∷ xs) = ground (arith, length-owned_after owner_id cursor xs)
