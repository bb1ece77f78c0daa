-- ===== src/Profile/PgRepo/Tests.antt =====
-- services/profile/internal/repo_postgres.go over a table that is a map from ids to rows.
use pokecatch.Prelude.{
  ℕ, ◌≡◌, refl, String, false, Option, none, some, List, [], ◌∷◌, str_eq, if◌then◌else◌,
}
use pokecatch.Prelude.Outcome.{Result, ok, err}
use pokecatch.Prelude.Dict
use pokecatch.Prelude.Dict.{Dict}
use pokecatch.Creatures.Samples.{young_sprout}
use pokecatch.Profile.Repo.{OwnedCreature, OwnershipTransfer, Error}
use pokecatch.Profile.PgRepo.{
  Row, Genes, QueryError, no_rows, failed, Database, row_of, genes_of, transfer_all, transfer_batch,
}

abbrev Table : Type 0
Table = Dict (Row Genes)

abbrev found : Option (Row Genes) → Result QueryError (Row Genes)
found none = err no_rows
found (some row) = ok row

abbrev reowned : Table → String → String → String → Option (Row Genes) → Result Error ℕ × Table
reowned s id from to none = (ok 0, s)
reowned s id from to (some row) =
    if str_eq row.owner_id from
    then (ok 1, Dict.put s id (record row { owner_id = to }))
    else (ok 0, s)

abbrev rewritten : Table → Row Genes → Option (Row Genes) → Result Error ℕ × Table
rewritten s row none = (ok 0, s)
rewritten s row (some old) = (ok 1, Dict.put s row.id (record row { owner_id = old.owner_id }))

abbrev commit_or_roll_back : Table → Option Error × Table → Option Error × Table
commit_or_roll_back s (some e, s') = (some e, s)
commit_or_roll_back s (none, s') = (none, s')

abbrev table : Database
table = record {
  State = Table;
  Blob = Genes;
  marshal = some;
  unmarshal = some;
  is_empty = λ g. false;
  nil = genes_of young_sprout;
  insert_creature = λ s row via. (none, Dict.put s row.id row);
  select_creature = λ s id. found (Dict.get s id);
  select_page = λ s owner_id cursor limit. err failed;
  update_creature = λ s row. rewritten s row (Dict.get s row.id);
  update_owner = λ s id from to. reowned s id from to (Dict.get s id);
  delete_team = λ s owner_id. (none, s);
  insert_team = λ s owner_id slot id. (none, s);
  select_team = λ s owner_id. ok [];
  begin_func = λ f s. commit_or_roll_back s (f s);
}

abbrev owned : String → String → OwnedCreature
owned id owner = record { inst = record young_sprout { instance_id = id }; owner_id = owner }

abbrev rows : Table
rows =
    Dict.put (Dict.put Dict.empty "c1" (row_of table (owned "c1" "ann") (genes_of young_sprout)))
      "c2" (row_of table (owned "c2" "bob") (genes_of young_sprout))

abbrev swap : List OwnershipTransfer
swap =
    record { creature_id = "c1"; from_id = "ann"; to_id = "bob" }
    ∷ record { creature_id = "c2"; from_id = "bob"; to_id = "ann" }
    ∷ []

swap_succeeds : (transfer_batch table rows swap).0 ≡ none
unfolding transfer_batch transfer_all Dict.get Dict.put Dict.empty
swap_succeeds = refl

abbrev with_c3 : Table
with_c3 = Dict.put rows "c3" (row_of table (owned "c3" "ann") (genes_of young_sprout))
