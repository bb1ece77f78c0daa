-- ===== src/Profile/Listing/Tests.antt =====
-- Pages of a stored collection, over ranges that meet it in two orders.
use pokecatch.Prelude.{
  ℕ, String, ◌↔◌, ◌≡◌, ◌≢◌, refl, List, [], ◌∷◌, arith, if_holds, ◌==◌, if◌then◌else◌, inl, inr,
}
use pokecatch.Prelude.Int.{pos}
use pokecatch.Creatures.Samples.{young_sprout}
use pokecatch.Profile.Repo.{OwnedCreature}
use pokecatch.Profile.Listing.Members.{Lists}
use pokecatch.Profile.Listing.Sorted.{HasOwnIds, IsAscending}
use pokecatch.Profile.Listing.{id_of}
use pokecatch.Profile.Listing.Walk.{AreRanges, walk, walk_all}

abbrev owned : String → String → OwnedCreature
owned id owner_id = record { inst = record young_sprout { instance_id = id }; owner_id = owner_id }

abbrev stored : List OwnedCreature
stored = owned "c1" "ann" ∷ owned "c2" "bob" ∷ owned "c3" "ann" ∷ []

abbrev turned : List OwnedCreature
turned = owned "c3" "ann" ∷ owned "c1" "ann" ∷ owned "c2" "bob" ∷ []

abbrev ranges : ℕ → List OwnedCreature
ranges n = if n == 1 then turned else stored

abbrev IsRange : List OwnedCreature → Type 0
IsRange xs = HasOwnIds xs × ((z : OwnedCreature) → Lists xs z ↔ Lists stored z)

stored-IsRange : IsRange stored
stored-IsRange = (((refl, (refl, _)), ((refl, _), (_, _))), λ z. (λ m. m, λ m. m))

turned-IsRange : IsRange turned
turned-IsRange = (((refl, (refl, _)), ((refl, _), (_, _))), λ z. (turn z, turn_back z))
  where
    turn : (z : OwnedCreature) → Lists turned z → Lists stored z
    turn z (inl e) = inr (inr (inl e))
    turn z (inr (inl e)) = inl e
    turn z (inr (inr (inl e))) = inr (inl e)
    turn z (inr (inr (inr e))) = elim e [ ]

    turn_back : (z : OwnedCreature) → Lists stored z → Lists turned z
    turn_back z (inl e) = inr (inl e)
    turn_back z (inr (inl e)) = inr (inr (inl e))
    turn_back z (inr (inr (inl e))) = inl e
    turn_back z (inr (inr (inr e))) = elim e [ ]

ranges-AreRanges : AreRanges stored ranges
ranges-AreRanges n = if_holds IsRange (n == 1) (λ _. turned-IsRange) (λ _. stored-IsRange)

walk_all_example :
    IsAscending (walk ranges "ann" (pos 1) 4 "")
    × ((z : OwnedCreature)
        → Lists (walk ranges "ann" (pos 1) 4 "") z
          ↔ (Lists stored z × (z.owner_id ≡ "ann") × (id_of z ≢ "")))
walk_all_example =
    walk_all stored ranges "ann" (pos 1) 4 ranges-AreRanges stored-IsRange.0 (omega arith)
