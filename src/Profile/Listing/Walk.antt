-- ===== src/Profile/Listing/Walk.antt =====
-- What a client reads that follows the cursors of List, services/profile/internal/collection.go, to
-- the end.
use pokecatch.Prelude.{
  ℕ, zero, suc, ◌<◌, String, ◌≡◌, ◌≢◌, ◌↔◌, eq_iff, refl, sym, ap, subst, true, Option, none, some,
  List, [], ◌∷◌, ◌++◌, arith, All, length, take, drop, take-drop,
}
use pokecatch.Prelude.Int.{ℤ}
use pokecatch.Prelude.Order.{str_lt, str_lt_trans, str_lt_empty}
use pokecatch.Profile.Repo.{OwnedCreature}
use pokecatch.Profile.Listing.{
  id_of, is_listed, owned_after, sort_by_id, next_cursor, list_creatures, list_page,
}
use pokecatch.Profile.Listing.Members.{
  Lists, All-of_Lists, Lists-sort_by_id, Lists-owned_after, length-sort_by_id, length-owned_after,
}
use pokecatch.Profile.Listing.Sorted.{
  IsAscending, HasOwnIds, sort_by_id-IsAscending, owned_after-HasOwnIds, same-Lists,
}
use pokecatch.Profile.Listing.Pages.{
  drop-IsAscending, length-drop, cut-take, All-take, next_cursor_holds, left_after, page_limit_pos,
}

-- The pages of a client that asks again from each cursor until a page is empty, at most `fuel`
-- times. `ranges n` is the order in which the call with `n` more to come meets the map.
walked_on :
    (String → List OwnedCreature) → Option (List OwnedCreature × String) → List OwnedCreature
walked_on next none = []
walked_on next (some ([], cursor)) = []
walked_on next (some (x ∷ xs, cursor)) = (x ∷ xs) ++ next cursor

unfoldable pub walk : (ℕ → List OwnedCreature) → String → ℤ → ℕ → String → List OwnedCreature
unfolding walked_on
walk ranges owner_id limit zero cursor = []
walk ranges owner_id limit (suc n) cursor =
    walked_on (walk ranges owner_id limit n) (list_page (ranges n) owner_id cursor limit)

-- Each range meets the stored creatures, under their own ids.
abbrev pub AreRanges : List OwnedCreature → (ℕ → List OwnedCreature) → Type 0
AreRanges stored ranges =
    (n : ℕ) → HasOwnIds (ranges n) × ((z : OwnedCreature) → Lists (ranges n) z ↔ Lists stored z)

module _ (stored : List OwnedCreature) (ranges : ℕ → List OwnedCreature) (owner_id : String)
    (limit : ℤ) where
  -- The list holds the creatures beyond the cursor.
  abbrev IsRest : String → List OwnedCreature → Type 0
  IsRest cursor xs =
      IsAscending xs
      × ((z : OwnedCreature) → Lists xs z ↔ (Lists stored z × (is_listed owner_id cursor z ≡ true)))

  sorted_rest :
      (n : ℕ) (cursor : String) (xs : List OwnedCreature)
      → AreRanges stored ranges
      → IsRest cursor xs
      → sort_by_id (owned_after owner_id cursor (ranges n)) ≡ xs
  sorted_rest n cursor xs r h =
      let listed = owned_after owner_id cursor (ranges n) in
      same-Lists (sort_by_id listed) xs
        (sort_by_id-IsAscending listed (owned_after-HasOwnIds owner_id cursor (ranges n) (r n).0))
        h.0
        (λ z.
          let (a, b) = Lists-sort_by_id listed z in
          let (c, d) = Lists-owned_after owner_id cursor (ranges n) z in
          let (e, f) = (r n).1 z in
          let (g, i) = h.1 z in
          (λ m. let p = c (a m) in i (e p.0, p.1), λ m. let p = g m in b (d (f p.0, p.1))))

  sorted_IsRest :
      (cursor : String)
      → HasOwnIds stored
      → IsRest cursor (sort_by_id (owned_after owner_id cursor stored))
  sorted_IsRest cursor d =
      let listed = owned_after owner_id cursor stored in
      (
        sort_by_id-IsAscending listed (owned_after-HasOwnIds owner_id cursor stored d),
        λ z.
            let (a, b) = Lists-sort_by_id listed z in
            let (c, e) = Lists-owned_after owner_id cursor stored z in (λ m. c (a m), λ m. b (e m)),
      )

  page_of :
      (n : ℕ) (cursor : String) (xs : List OwnedCreature)
      → AreRanges stored ranges
      → IsRest cursor xs
      → (k : ℕ) × (list_page (ranges n) owner_id cursor limit
          ≡ some (take (suc k) xs, next_cursor (take (suc k) xs)))
  unfolding list_page list_creatures
  page_of n cursor xs r h =
      let (k, e) = page_limit_pos limit in
      (k, rw (e, sorted_rest n cursor xs r h, cut-take (suc k) xs) refl)

  IsRest-after :
      (k : ℕ) (cursor : String) (x : OwnedCreature) (xs : List OwnedCreature)
      → IsRest cursor (x ∷ xs)
      → IsRest (next_cursor (x ∷ take k xs)) (drop k xs)
  IsRest-after k cursor x xs h =
      let last = next_cursor (x ∷ take k xs) in
      let beyond : All (λ y. str_lt cursor (id_of y) ≡ true) (x ∷ xs) =
        All-of_Lists (λ y. str_lt cursor (id_of y) ≡ true) (x ∷ xs)
          (λ z m. ground (arith, ((h.1 z).0 m).1)) in
      let further : str_lt cursor last ≡ true =
        next_cursor_holds (λ i. str_lt cursor i ≡ true) x (take k xs)
          (beyond.0, All-take (λ y. str_lt cursor (id_of y) ≡ true) k xs beyond.1) in
      (
        drop-IsAscending k xs h.0.1,
        λ z.
            let (to, from) = left_after k x xs z h.0 in
            let (g, i) = h.1 z in
            (
              λ m. let p = to m in let q = g p.0 in (q.0, ground (arith, q.1, p.1)),
              λ p.
                  let past : str_lt last (id_of z) ≡ true = ground (arith, p.1) in
                  from (
                    i (p.0, ground (arith, p.1, str_lt_trans cursor last (id_of z) further past)),
                    past,
                  ),
            ),
      )

  walk_rest :
      (fuel : ℕ) (cursor : String) (xs : List OwnedCreature)
      → AreRanges stored ranges
      → IsRest cursor xs
      → length xs < fuel
      → walk ranges owner_id limit fuel cursor ≡ xs
  unfolding walk walked_on
  walk_rest zero cursor xs r h b = absurd (omega (arith, b))
  walk_rest (suc n) cursor [] r h b = let (k, e) = page_of n cursor [] r h in rw e refl
  walk_rest (suc n) cursor (x ∷ xs) r h b =
      let (k, e) = page_of n cursor (x ∷ xs) r h in
      let rest =
        walk_rest n (next_cursor (x ∷ take k xs)) (drop k xs) r (IsRest-after k cursor x xs h)
          (omega (arith, b, length-drop k xs)) in
      rw (e, rest) (ap (◌∷◌ x) (take-drop k xs))

-- If every range over the map meets the stored creatures, which have different ids, in an order
-- of its own, a client that follows the cursors of List from the empty one, whatever its limit,
-- gets with fuel beyond their number the creatures that the account owns under non-empty ids:
-- exactly these, once each and in the order of their ids.
pub walk_all :
    (stored : List OwnedCreature) (ranges : ℕ → List OwnedCreature) (owner_id : String) (limit : ℤ)
    (fuel : ℕ)
    → AreRanges stored ranges
    → HasOwnIds stored
    → length stored < fuel
    → IsAscending (walk ranges owner_id limit fuel "")
      × ((z : OwnedCreature)
          → Lists (walk ranges owner_id limit fuel "") z
            ↔ (Lists stored z × (z.owner_id ≡ owner_id) × (id_of z ≢ "")))
walk_all stored ranges owner_id limit fuel r d b =
    let xs = sort_by_id (owned_after owner_id "" stored) in
    let rest = sorted_IsRest stored ranges owner_id limit "" d in
    let short : length xs < fuel = omega (
      arith,
      b,
      length-sort_by_id (owned_after owner_id "" stored),
      length-owned_after owner_id "" stored,
    ) in
    let (ascending, exact) =
      subst (IsRest stored ranges owner_id limit "")
        (sym (walk_rest stored ranges owner_id limit fuel "" xs r rest short)) rest in
    (
      ascending,
      λ z.
          let (to, from) = exact z in
          let (some_id, id) = str_lt_empty (id_of z) in
          let (same, text) = eq_iff z.owner_id owner_id in
          (
            λ m. let p = to m in (p.0, same (ground (arith, p.1)), some_id (ground (arith, p.1))),
            λ p. from (p.0, ground (arith, text p.1, id p.2)),
          ),
    )
