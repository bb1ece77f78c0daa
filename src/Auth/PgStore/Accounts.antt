-- ===== src/Auth/PgStore/Accounts.antt =====
-- The accounts of services/auth/internal/store_postgres.go, under what PostgreSQL documents of a UNIQUE
-- column and of an INSERT.
use pokecatch.Prelude.{◌≡◌, refl, Option, none, some, arith}
use pokecatch.Prelude.Int.{pos}
use pokecatch.Prelude.Outcome.{Result, ok, err}
use pokecatch.Auth.Store.{Account, email_taken}
use pokecatch.Auth.PgStore.{
  AccountRow, DbError, pg_error, error_code, is_unique_violation, QueryError, no_rows, failed,
  Database, account_row, created, create_account, scan_account, account_by_email, account_by_id,
}

pub record IsAccountTable (db : Database) : Type 0 where
  -- the email of a row is taken: unique_violation
  pub unique_email :
      (s : db.State) (row held : AccountRow)
      → db.select_by_email s row.email ≡ ok held
      → db.insert_account s row ≡ (some (pg_error "23505"), s)
  pub insert_found :
      (s : db.State) (row : AccountRow)
      → (db.insert_account s row).0 ≡ none
      → (db.select_by_email (db.insert_account s row).1 row.email ≡ ok row)
        × (db.select_by_id (db.insert_account s row).1 row.id ≡ ok row)

module _ (db : Database) (law : IsAccountTable db) where
  found_row :
      (r : Result QueryError AccountRow) (held : Account)
      → scan_account db r ≡ ok held
      → (row : AccountRow) × (r ≡ ok row)
  found_row (ok row) held h = (row, refl)
  found_row (err no_rows) held h = absurd (cc h)
  found_row (err (failed e)) held h = absurd (cc h)

  -- A second account under an email is refused as taken, and changes nothing.
  pub create_account-taken :
      (s : db.State) (a held : Account)
      → account_by_email db s a.email ≡ ok held
      → create_account db s a ≡ (some email_taken, s)
  unfolding create_account account_by_email is_unique_violation error_code
  create_account-taken s a held h =
      let (row, e) = found_row (db.select_by_email s a.email) held h in
      rw (law.unique_email s (account_row db a) row e) refl

  inserted_if_none :
      (r : Option DbError × db.State)
      → (created db r).0 ≡ none
      → (r.0 ≡ none) × ((created db r).1 ≡ r.1)
  unfolding is_unique_violation error_code
  inserted_if_none (none, s) h = (refl, refl)
  inserted_if_none (some e, s) h = absurd (ground (arith, h))

  -- An account of the first token version is found by its email and by its id once it is created.
  pub create_account-found :
      (s : db.State) (a : Account)
      → a.token_ver ≡ pos 1
      → (create_account db s a).0 ≡ none
      → (account_by_email db (create_account db s a).1 a.email ≡ ok a)
        × (account_by_id db (create_account db s a).1 a.id ≡ ok a)
  unfolding create_account account_by_email account_by_id
  create_account-found s a version h =
      let (done, same) = inserted_if_none (db.insert_account s (account_row db a)) h in
      let (by_email, by_id) = law.insert_found s (account_row db a) done in
      (rw (same, by_email, ← version) refl, rw (same, by_id, ← version) refl)
