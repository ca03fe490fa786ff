-- ===== src/Ingest/Keys.antt =====
-- The tables that packages/obs-collector/src/lib/projects-store.ts keeps, and its operations on ingest
-- keys. A SQL statement is its effect on the rows, which stand in the order of insertion; a time is in
-- milliseconds. `sha256Hex` (Web Crypto) is the parameter `sha256_hex`; what `randomHex` draws is an
-- argument.
use obs_unified.Common.{
  ℕ, Bool, true, false, ◌&&◌, List, [], ◌∷◌, ◌++◌, Option, none, some, take, if◌then◌else◌,
}
use obs_unified.Common.Text.{Text, lit, text_eq}

pub record KeyRow : Type 0 where
  pub id : Text
  pub project_id : Text
  pub key_hash : Text
  pub key_prefix : Text
  pub name : Text
  pub created_at : ℕ
  pub revoked_at : Option ℕ

pub record ProjectRow : Type 0 where
  pub id : Text
  pub name : Text
  pub slug : Text
  pub created_at : ℕ

pub record Db : Type 0 where
  pub projects : List ProjectRow
  pub ingest_keys : List KeyRow

abbrev pub is_active : KeyRow → Bool
is_active row = elim row.revoked_at [ none ↦ true | some t ↦ false ]

-- `SELECT … WHERE key_hash = ? AND revoked_at IS NULL`, the first row: its project
unfoldable pub find_in : Text → List KeyRow → Option Text
find_in hash [] = none
find_in hash (row ∷ rows) =
    if text_eq row.key_hash hash && is_active row then some row.project_id else find_in hash rows

abbrev pub find_by_key_hash : Db → Text → Option Text
find_by_key_hash db hash = find_in hash db.ingest_keys

-- `SELECT id … WHERE key_hash = ?`: whether there is a row, revoked or not
unfoldable pub has_hash : Text → List KeyRow → Bool
has_hash hash [] = false
has_hash hash (row ∷ rows) = if text_eq row.key_hash hash then true else has_hash hash rows

-- `UPDATE … SET revoked_at = ? WHERE id = ? AND revoked_at IS NULL`: the rows, and whether any changed
unfoldable pub revoke_rows : ℕ → Text → List KeyRow → List KeyRow × Bool
revoke_rows now key_id [] = ([], false)
revoke_rows now key_id (row ∷ rows) =
    let (rest, changed) = revoke_rows now key_id rows in
    if text_eq row.id key_id && is_active row
    then (record row { revoked_at = some now } ∷ rest, true)
    else (row ∷ rest, changed)

unfoldable pub revoke_key : ℕ → Db → Text → Db × Bool
unfolding revoke_rows
revoke_key now db key_id =
    let (rows, changed) = revoke_rows now key_id db.ingest_keys in
    (record db { ingest_keys = rows }, changed)

-- `INSERT OR IGNORE` of the project `default`; its id and its slug are unique columns.
unfoldable pub has_default : List ProjectRow → Bool
has_default [] = false
has_default (row ∷ rows) =
    if text_eq row.id (lit "default")
    then true
    else if text_eq row.slug (lit "default")
    then true
    else has_default rows

unfoldable pub ensure_default_project : ℕ → Db → Db
unfolding has_default
ensure_default_project now db = if has_default db.projects then db else record db {
  projects =
      db.projects
      ++ record { id = lit "default"; name = lit "Default"; slug = lit "default"; created_at = now }
        ∷ [];
}

module _ (sha256_hex : Text → Text) where
  abbrev pub bootstrap_row : ℕ → Text → Text → KeyRow
  bootstrap_row now id plaintext = record {
    id = id;
    project_id = lit "default";
    key_hash = sha256_hex plaintext;
    key_prefix = take 16 plaintext;
    name = lit "bootstrap";
    created_at = now;
    revoked_at = none;
  }

  unfoldable pub bootstrap_env_key : ℕ → Text → Db → Text → Db
  unfolding ensure_default_project has_hash
  bootstrap_env_key now id db [] = db
  bootstrap_env_key now id db (c ∷ plaintext) =
      let db' = ensure_default_project now db in
      if has_hash (sha256_hex (c ∷ plaintext)) db'.ingest_keys
      then db'
      else record db' { ingest_keys = db'.ingest_keys ++ bootstrap_row now id (c ∷ plaintext) ∷ [] }
