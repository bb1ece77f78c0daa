-- ===== src/Profile/PgRepo/RoundTrip.antt =====
-- What a creature is read as from services/profile/internal/repo_postgres.go after it was added.
use pokecatch.Prelude.{◌≡◌, String, false, none, some, str_eq, if◌then◌else◌}
use pokecatch.Prelude.Int.{pos}
use pokecatch.Prelude.Outcome.{ok}
use pokecatch.Types.{healthy}
use pokecatch.Profile.Repo.{OwnedCreature}
use pokecatch.Profile.PgRepo.{Row, Genes, Database}

-- What adding and reading rely on.
pub record IsStored (db : Database) : Type 0 where
  -- JSON reads the genes that it wrote, and writes something
  pub unmarshal_marshal :
      (g : Genes) (blob : db.Blob)
      → db.marshal g ≡ some blob
      → (db.is_empty blob ≡ false) × (db.unmarshal blob ≡ some g)
  -- an INSERT that succeeds adds its row and changes no other
  pub insert_found :
      (s : db.State) (row : Row db.Blob) (via : String)
      → (db.insert_creature s row via).0 ≡ none
      → (j : String)
      → db.select_creature (db.insert_creature s row via).1 j
        ≡ (if str_eq row.id j then ok row else db.select_creature s j)

-- The creature without what it has in battle only: its status and its hit points.
abbrev pub rested : OwnedCreature → OwnedCreature
rested oc = record oc { inst = record oc.inst { status = healthy; current_hp = pos 0 } }
