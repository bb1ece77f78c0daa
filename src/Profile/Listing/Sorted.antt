-- ===== src/Profile/Listing/Sorted.antt =====
-- The order in which ListCreatures of services/profile/internal/repo_memory.go lists creatures.
use pokecatch.Prelude.{
  String, ◌≡◌, ◌↔◌, refl, sym, if_holds, true, false, inl, inr, List, [], ◌∷◌, arith, Bool-cases,
  All, All-imp, str_eq, eq_iff,
}
use pokecatch.Prelude.Order.{str_lt, str_lt_irrefl, str_lt_trans, str_lt_total}
use pokecatch.Profile.Repo.{OwnedCreature}
use pokecatch.Profile.Listing.Members.{Lists, All-Lists}
use pokecatch.Profile.Listing.{id_of, is_listed, owned_after, insert_by_id, sort_by_id}

abbrev pub IsAbove : OwnedCreature → OwnedCreature → Type 0
IsAbove x y = str_lt (id_of x) (id_of y) ≡ true

-- Every id is below those after it.
abbrev pub IsAscending : List OwnedCreature → Type 0
IsAscending [] = Unit {0}
IsAscending (x ∷ xs) = All (IsAbove x) xs × IsAscending xs

-- No two ids are the same.
abbrev pub HasOwnIds : List OwnedCreature → Type 0
HasOwnIds [] = Unit {0}
HasOwnIds (x ∷ xs) = All (λ y. str_eq (id_of x) (id_of y) ≡ false) xs × HasOwnIds xs

All-insert_by_id :
    (P : OwnedCreature → Type 0) (oc : OwnedCreature) (xs : List OwnedCreature)
    → P oc
    → All P xs
    → All P (insert_by_id oc xs)
unfolding insert_by_id
All-insert_by_id P oc [] p h = (p, _)
All-insert_by_id P oc (x ∷ xs) p h =
    if_holds (All P) (str_lt (id_of oc) (id_of x)) (λ _. (p, h))
      (λ _. (h.0, All-insert_by_id P oc xs p h.1))

pub All-sort_by_id :
    (P : OwnedCreature → Type 0) (xs : List OwnedCreature) → All P xs → All P (sort_by_id xs)
unfolding sort_by_id
All-sort_by_id P [] h = _
All-sort_by_id P (x ∷ xs) h = All-insert_by_id P x (sort_by_id xs) h.0 (All-sort_by_id P xs h.1)

IsAbove-other :
    (x y : OwnedCreature)
    → str_lt (id_of x) (id_of y) ≡ false
    → str_eq (id_of x) (id_of y) ≡ false
    → IsAbove y x
IsAbove-other x y h k = elim (Bool-cases (str_lt (id_of y) (id_of x))) [
  | inl e ↦ e
  | inr e ↦
      absurd
        (ground (arith, k, (eq_iff (id_of x) (id_of y)).1 (str_lt_total (id_of x) (id_of y) h e)))
]

insert_by_id-IsAscending :
    (oc : OwnedCreature) (xs : List OwnedCreature)
    → All (λ y. str_eq (id_of oc) (id_of y) ≡ false) xs
    → IsAscending xs
    → IsAscending (insert_by_id oc xs)
unfolding insert_by_id
insert_by_id-IsAscending oc [] d h = (_, _)
insert_by_id-IsAscending oc (x ∷ xs) d h =
    if_holds IsAscending (str_lt (id_of oc) (id_of x))
      (λ e. (
        (
          e,
          All-imp (IsAbove x) (IsAbove oc) xs
              (λ y k. str_lt_trans (id_of oc) (id_of x) (id_of y) e k) h.0,
        ),
        h,
      ))
      (λ e. (
        All-insert_by_id (IsAbove x) oc xs (IsAbove-other oc x e d.0) h.0,
        insert_by_id-IsAscending oc xs d.1 h.1,
      ))

pub sort_by_id-IsAscending : (xs : List OwnedCreature) → HasOwnIds xs → IsAscending (sort_by_id xs)
unfolding sort_by_id
sort_by_id-IsAscending [] h = _
sort_by_id-IsAscending (x ∷ xs) h =
    insert_by_id-IsAscending x (sort_by_id xs)
      (All-sort_by_id (λ y. str_eq (id_of x) (id_of y) ≡ false) xs h.0)
      (sort_by_id-IsAscending xs h.1)

All-owned_after :
    (P : OwnedCreature → Type 0) (owner_id cursor : String) (xs : List OwnedCreature)
    → All P xs
    → All P (owned_after owner_id cursor xs)
unfolding owned_after
All-owned_after P owner_id cursor [] h = _
All-owned_after P owner_id cursor (x ∷ xs) h =
    let rest = All-owned_after P owner_id cursor xs h.1 in
    if_holds (All P) (is_listed owner_id cursor x) (λ _. (h.0, rest)) (λ _. rest)

pub owned_after-HasOwnIds :
    (owner_id cursor : String) (xs : List OwnedCreature)
    → HasOwnIds xs
    → HasOwnIds (owned_after owner_id cursor xs)
unfolding owned_after
owned_after-HasOwnIds owner_id cursor [] h = _
owned_after-HasOwnIds owner_id cursor (x ∷ xs) h =
    let rest = owned_after-HasOwnIds owner_id cursor xs h.1 in
    if_holds HasOwnIds (is_listed owner_id cursor x)
      (λ _.
        (All-owned_after (λ y. str_eq (id_of x) (id_of y) ≡ false) owner_id cursor xs h.0, rest))
      (λ _. rest)

not_both_above : (x y : OwnedCreature) → IsAbove x y → IsAbove y x → ⊥
not_both_above x y h k =
    cc (str_lt_irrefl (id_of x), str_lt_trans (id_of x) (id_of y) (id_of x) h k)

same_head :
    (x y : OwnedCreature) (xs ys : List OwnedCreature)
    → All (IsAbove x) xs
    → All (IsAbove y) ys
    → Lists (y ∷ ys) x
    → Lists (x ∷ xs) y
    → x ≡ y
same_head x y xs ys h k (inl e) n = sym e
same_head x y xs ys h k (inr m) (inl e) = e
same_head x y xs ys h k (inr m) (inr n) =
    absurd (not_both_above x y (All-Lists (IsAbove x) xs y h n) (All-Lists (IsAbove y) ys x k m))

tail-Lists :
    (x y : OwnedCreature) (xs ys : List OwnedCreature) (z : OwnedCreature)
    → x ≡ y
    → All (IsAbove x) xs
    → (Lists (x ∷ xs) z → Lists (y ∷ ys) z)
    → Lists xs z
    → Lists ys z
tail-Lists x y xs ys z e h f m = elim (f (inr m)) [
  | inl d ↦ absurd (cc (All-Lists (IsAbove x) xs z h m, str_lt_irrefl (id_of x), e, d))
  | inr n ↦ n
]

-- Two ascending lists of the same creatures are the same.
pub same-Lists :
    (xs ys : List OwnedCreature)
    → IsAscending xs
    → IsAscending ys
    → ((z : OwnedCreature) → Lists xs z ↔ Lists ys z)
    → xs ≡ ys
same-Lists [] [] h k f = refl
same-Lists [] (y ∷ ys) h k f = elim ((f y).1 (inl refl)) [ ]
same-Lists (x ∷ xs) [] h k f = elim ((f x).0 (inl refl)) [ ]
same-Lists (x ∷ xs) (y ∷ ys) h k f =
    let e = same_head x y xs ys h.0 k.0 ((f x).0 (inl refl)) ((f y).1 (inl refl)) in
    let rest =
      same-Lists xs ys h.1 k.1
        (λ z. (tail-Lists x y xs ys z e h.0 (f z).0, tail-Lists y x ys xs z (sym e) k.0 (f z).1)) in
    cc (e, rest)
