-- ===== src/Profile/PgRepo/Batch.antt =====
-- TransferBatch of services/profile/internal/repo_postgres.go, under what PostgreSQL and pgx document.
use pokecatch.Prelude.{◌≡◌, String, Option, none, some, List, [], ◌∷◌, str_eq, if◌then◌else◌}
use pokecatch.Prelude.Outcome.{Result, ok}
use pokecatch.Profile.Repo.{OwnedCreature, OwnershipTransfer, Error, moved, owner_of}
use pokecatch.Profile.PgRepo.{Row, Genes, Database, read_genes}

-- What the batch relies on.
pub record IsTransactional (db : Database) : Type 0 where
  -- BeginFunc rolls back when it returns an error, and otherwise commits what the function did
  pub begin_err :
      (f : db.State → Option Error × db.State) (s : db.State) (e : Error)
      → (db.begin_func f s).0 ≡ some e
      → (db.begin_func f s).1 ≡ s
  pub begin_ok :
      (f : db.State → Option Error × db.State) (s : db.State)
      → (db.begin_func f s).0 ≡ none
      → db.begin_func f s ≡ f s
  -- an UPDATE of one row found it as its WHERE says, and changes its owner and no other row
  pub update_one :
      (s : db.State) (id from to : String)
      → (db.update_owner s id from to).0 ≡ ok 1
      → (row : Row db.Blob) × (db.select_creature s id ≡ ok row)
        × (row.owner_id ≡ from)
        × ((j : String)
            → db.select_creature (db.update_owner s id from to).1 j
              ≡ (if str_eq id j then ok (record row { owner_id = to }) else db.select_creature s j))
  -- the genes of a row were written by the service
  pub readable :
      (s : db.State) (id : String) (row : Row db.Blob)
      → db.select_creature s id ≡ ok row
      → (g : Genes) × (read_genes db row.genes ≡ ok g)

-- Each transfer in its turn finds the creature with the account it leaves.
abbrev pub InTurn : List OwnershipTransfer → (String → Result Error OwnedCreature) → Type 0
InTurn [] f = Unit {0}
InTurn (t ∷ ts) f =
    (owner_of (f t.creature_id) ≡ some t.from_id) × InTurn ts (λ j. moved (t ∷ []) j (f j))

abbrev pub ids_of : List OwnershipTransfer → List String
ids_of [] = []
ids_of (t ∷ ts) = t.creature_id ∷ ids_of ts
