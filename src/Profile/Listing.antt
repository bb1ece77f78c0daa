-- ===== src/Profile/Listing.antt =====
-- ListCreatures of services/profile/internal/repo_memory.go and List of collection.go. The values of
-- the map are a list in the order of the range over it. sortByID is an insertion sort: the ids that
-- it compares are different, so that sort.Slice has one answer only.
pub mod Members
pub mod Sorted
pub mod Pages
pub mod Walk
pub mod Tests
use pokecatch.Prelude.{
  String, Bool, true, false, ◌&&◌, Option, none, some, List, [], ◌∷◌, take, length, ltb, str_eq,
  if◌then◌else◌,
}
use pokecatch.Prelude.Int.{ℤ, pos, negsuc}
use pokecatch.Prelude.Order.{str_lt}
use pokecatch.Profile.Repo.{OwnedCreature}
use pokecatch.Profile.Collection.{page_limit}

abbrev pub id_of : OwnedCreature → String
id_of oc = oc.inst.instance_id

abbrev pub is_listed : String → String → OwnedCreature → Bool
is_listed owner_id cursor oc = str_eq oc.owner_id owner_id && str_lt cursor (id_of oc)

-- The loop of ListCreatures
unfoldable pub owned_after : String → String → List OwnedCreature → List OwnedCreature
owned_after owner_id cursor [] = []
owned_after owner_id cursor (oc ∷ ocs) =
    let rest = owned_after owner_id cursor ocs in
    if is_listed owner_id cursor oc then oc ∷ rest else rest

unfoldable pub insert_by_id : OwnedCreature → List OwnedCreature → List OwnedCreature
insert_by_id oc [] = oc ∷ []
insert_by_id oc (x ∷ xs) =
    let rest = insert_by_id oc xs in if str_lt (id_of oc) (id_of x) then oc ∷ x ∷ xs else x ∷ rest

unfoldable pub sort_by_id : List OwnedCreature → List OwnedCreature
unfolding insert_by_id
sort_by_id [] = []
sort_by_id (oc ∷ ocs) = insert_by_id oc (sort_by_id ocs)

-- owned[:limit] of a longer slice; a negative limit panics.
abbrev pub cut : ℤ → List OwnedCreature → Option (List OwnedCreature)
cut (pos n) owned = if ltb n (length owned) then some (take n owned) else some owned
cut (negsuc n) owned = none

-- The id of the last of the page, or the empty cursor
abbrev pub next_cursor : List OwnedCreature → String
next_cursor [] = ""
next_cursor (oc ∷ []) = id_of oc
next_cursor (oc ∷ x ∷ xs) = next_cursor (x ∷ xs)

abbrev pub with_cursor : Option (List OwnedCreature) → Option (List OwnedCreature × String)
with_cursor none = none
with_cursor (some page) = some (page, next_cursor page)

unfoldable pub list_creatures :
    List OwnedCreature → String → String → ℤ → Option (List OwnedCreature × String)
unfolding owned_after sort_by_id
list_creatures range owner_id cursor limit =
    with_cursor (cut limit (sort_by_id (owned_after owner_id cursor range)))

-- Collection.List
unfoldable pub list_page :
    List OwnedCreature → String → String → ℤ → Option (List OwnedCreature × String)
list_page range owner_id cursor limit = list_creatures range owner_id cursor (page_limit limit)
