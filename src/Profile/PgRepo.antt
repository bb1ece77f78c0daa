-- ===== src/Profile/PgRepo.antt =====
-- services/profile/internal/repo_postgres.go: the `Repo` over PostgreSQL. The driver, the database and
-- JSONB are parameters: a Database has one operation for each SQL statement of the file, which yields
-- the rows or their number, or an error, and the state of the database after it.
pub mod Batch
pub mod RoundTrip
mod Tests
use pokecatch.Prelude.{
  ℕ, zero, suc, String, Bool, Option, none, some, List, [], ◌∷◌, str_eq, if◌then◌else◌, ◌==◌,
}
use pokecatch.Prelude.Int.{ℤ}
use pokecatch.Prelude.Outcome.{Result, ok, err, ◌>>=◌}
use pokecatch.Types.{Stats}
use pokecatch.Creatures.Model.{Nature, PassiveAbility, Instance, zero_instance}
use pokecatch.Profile.Repo.{
  OwnedCreature, OwnershipTransfer, Error, creature_not_found, not_owner, driver, Repo,
}

pub record Genes : Type 0 where
  pub ivs : Stats
  pub evs : Stats
  pub nature : Nature
  pub ability : PassiveAbility

-- A row of creature_instances; a null nickname is none.
pub record Row (Blob : Type 0) : Type 0 where
  pub id : String
  pub owner_id : String
  pub dex_id : ℤ
  pub nickname : Option String
  pub level : ℤ
  pub xp : ℤ
  pub genes : Blob
  pub skill_ids : List String

pub data QueryError : Type 0 where
  no_rows failed : QueryError

pub record Database : Type 1 where
  pub State : Type 0
  pub Blob : Type 0
  pub marshal : Genes → Option Blob
  pub unmarshal : Blob → Option Genes
  pub is_empty : Blob → Bool
  pub nil : Blob
  -- INSERT INTO creature_instances, with its acquired_via
  pub insert_creature : State → Row Blob → String → Option Error × State
  -- selectCreature with WHERE id, and with the keyset of ListCreatures
  pub select_creature : State → String → Result QueryError (Row Blob)
  pub select_page : State → String → String → ℤ → Result QueryError (List (Row Blob))
  -- UPDATE creature_instances WHERE id, of all columns but the owner
  pub update_creature : State → Row Blob → Result Error ℕ × State
  -- UPDATE creature_instances SET owner_id WHERE id AND owner_id
  pub update_owner : State → String → String → String → Result Error ℕ × State
  pub delete_team : State → String → Option Error × State
  pub insert_team : State → String → ℕ → String → Option Error × State
  pub select_team : State → String → Result QueryError (List String)
  -- pgx.BeginFunc
  pub begin_func : (State → Option Error × State) → State → Option Error × State

abbrev pub genes_of : Instance → Genes
genes_of i = record { ivs = i.ivs; evs = i.evs; nature = i.nature; ability = i.ability }

abbrev pub nullify : String → Option String
nullify s = if str_eq s "" then none else some s

-- COALESCE(nickname, '')
abbrev pub coalesce : Option String → String
coalesce none = ""
coalesce (some s) = s

-- copy(dst, src)
abbrev pub copy : List String → List String → List String
copy [] src = []
copy (d ∷ ds) [] = d ∷ ds
copy (d ∷ ds) (s ∷ ss) = s ∷ copy ds ss

abbrev pub zero_genes : Genes
zero_genes = genes_of zero_instance

abbrev or_driver : Option Genes → Result Error Genes
or_driver none = err driver
or_driver (some g) = ok g

module _ (db : Database) where
  open db use {State, Blob}

  abbrev pub row_of : OwnedCreature → Blob → Row Blob
  row_of oc blob = record {
    id = oc.inst.instance_id;
    owner_id = oc.owner_id;
    dex_id = oc.inst.dex_id;
    nickname = nullify oc.inst.nickname;
    level = oc.inst.level;
    xp = oc.inst.xp;
    genes = blob;
    skill_ids = oc.inst.skill_ids;
  }

  abbrev inserted : State → OwnedCreature → Option Blob → Option Error × State
  inserted s oc none = (some driver, s)
  inserted s oc (some blob) = db.insert_creature s (row_of oc blob) "wild"

  unfoldable pub add_creature : State → OwnedCreature → Option Error × State
  add_creature s oc = inserted s oc (db.marshal (genes_of oc.inst))

  -- scanCreatureRow
  abbrev pub read_genes : Blob → Result Error Genes
  read_genes blob = if db.is_empty blob then ok zero_genes else or_driver (db.unmarshal blob)

  abbrev pub creature_of : Row Blob → Genes → OwnedCreature
  creature_of row g = record {
    inst = record zero_instance {
      instance_id = row.id;
      dex_id = row.dex_id;
      nickname = coalesce row.nickname;
      level = row.level;
      xp = row.xp;
      ivs = g.ivs;
      evs = g.evs;
      nature = g.nature;
      ability = g.ability;
      skill_ids = copy zero_instance.skill_ids row.skill_ids;
    };
    owner_id = row.owner_id;
  }

  abbrev pub scan_row : Row Blob → Result Error OwnedCreature
  scan_row row = do g ← read_genes row.genes; ok (creature_of row g)

  abbrev pub scan_creature : Result QueryError (Row Blob) → Result Error OwnedCreature
  scan_creature (err no_rows) = err creature_not_found
  scan_creature (err failed) = err driver
  scan_creature (ok row) = scan_row row

  unfoldable pub get_creature : State → String → Result Error OwnedCreature
  get_creature s id = scan_creature (db.select_creature s id)

  -- The loop over the rows of a page
  abbrev pub scan_rows : List (Row Blob) → Result Error (List OwnedCreature)
  scan_rows [] = ok []
  scan_rows (row ∷ rows) = do oc ← scan_row row; rest ← scan_rows rows; ok (oc ∷ rest)

  abbrev pub last_id : List OwnedCreature → String
  last_id [] = ""
  last_id (oc ∷ []) = oc.inst.instance_id
  last_id (oc ∷ x ∷ xs) = last_id (x ∷ xs)

  abbrev paged : Result QueryError (List (Row Blob)) → Result Error (List OwnedCreature × String)
  paged (err e) = err driver
  paged (ok rows) = do out ← scan_rows rows; ok (out, last_id out)

  unfoldable pub list_creatures :
      State → String → String → ℤ → Result Error (List OwnedCreature × String)
  list_creatures s owner_id cursor limit = paged (db.select_page s owner_id cursor limit)

  abbrev or_nil : Option Blob → Blob
  or_nil none = db.nil
  or_nil (some blob) = blob

  -- An error of Exec, no row, or one
  abbrev pub unless_missing : Error → Result Error ℕ × State → Option Error × State
  unless_missing missing (err e, s) = (some e, s)
  unless_missing missing (ok n, s) = if n == 0 then (some missing, s) else (none, s)

  unfoldable pub update_creature : State → OwnedCreature → Option Error × State
  update_creature s oc =
      unless_missing creature_not_found
        (db.update_creature s (row_of oc (or_nil (db.marshal (genes_of oc.inst)))))

  -- The loop of SetTeam, after the DELETE
  unfoldable pub insert_members :
      String → ℕ → List String → Option Error × State → Option Error × State
  insert_members owner_id slot ids (some e, s) = (some e, s)
  insert_members owner_id slot [] (none, s) = (none, s)
  insert_members owner_id slot (id ∷ ids) (none, s) =
      insert_members owner_id (suc slot) ids (db.insert_team s owner_id slot id)

  unfoldable pub set_team : State → String → List String → Option Error × State
  unfolding insert_members
  set_team s owner_id ids =
      db.begin_func (λ tx. insert_members owner_id 0 ids (db.delete_team tx owner_id)) s

  abbrev pub team_of : Result QueryError (List String) → Result Error (List String)
  team_of (ok ids) = ok ids
  team_of (err e) = err driver

  unfoldable pub get_team : State → String → Result Error (List String)
  get_team s owner_id = team_of (db.select_team s owner_id)

  unfoldable pub transfer_ownership : State → String → String → String → Option Error × State
  transfer_ownership s id from to = unless_missing not_owner (db.update_owner s id from to)

  -- The test of one round of TransferBatch
  abbrev pub exactly_one : Result Error ℕ × State → Option Error × State
  exactly_one (err e, s) = (some e, s)
  exactly_one (ok n, s) = if n == 1 then (none, s) else (some not_owner, s)

  abbrev unless_failed :
      (State → Option Error × State) → Option Error × State → Option Error × State
  unless_failed k (some e, s) = (some e, s)
  unless_failed k (none, s) = k s

  unfoldable pub transfer_all : List OwnershipTransfer → State → Option Error × State
  transfer_all [] s = (none, s)
  transfer_all (t ∷ ts) s =
      unless_failed (transfer_all ts)
        (exactly_one (db.update_owner s t.creature_id t.from_id t.to_id))

  unfoldable pub transfer_batch : State → List OwnershipTransfer → Option Error × State
  unfolding transfer_all
  transfer_batch s ts = db.begin_func (transfer_all ts) s

  abbrev pub pg_repo : Repo
  pg_repo = record {
    State = State;
    add_creature = add_creature;
    get_creature = get_creature;
    update_creature = update_creature;
    set_team = set_team;
    get_team = get_team;
    transfer_ownership = transfer_ownership;
    transfer_batch = transfer_batch;
  }
