-- ===== src/Ingest/KeyLaws.antt =====
-- What the statements of packages/obs-collector/src/lib/projects-store.ts keep of the active keys.
use mathlib.Core.Bool.{false≢true}
use obs_unified.Common.{
  if◌then◌else◌, ℕ, ◌≡◌, refl, true, false, ◌&&◌, List, [], ◌∷◌, ◌++◌, none, some, inl, inr, All,
  Bool-cases, arith,
}
use obs_unified.Common.Text.{Text, text_eq, text_eq_iff}
use obs_unified.Ingest.Keys.{
  KeyRow, Db, is_active, find_in, find_by_key_hash, has_hash, revoke_rows, bootstrap_row,
  bootstrap_env_key, ensure_default_project,
}

find-append_found :
    (hash : Text) (rows new : List KeyRow) {p : Text}
    → find_in hash rows ≡ some p
    → find_in hash (rows ++ new) ≡ some p
unfolding find_in
find-append_found hash [] new h = cc
find-append_found hash (row ∷ rows) new h =
    elim (Bool-cases (text_eq row.key_hash hash && is_active row)) [
      | inl here ↦ rw here (rw here at h)
      | inr on ↦ rw on (find-append_found hash rows new (rw on at h))
    ]

find-append_other :
    (hash : Text) (rows : List KeyRow) (row : KeyRow)
    → text_eq row.key_hash hash ≡ false
    → find_in hash (rows ++ row ∷ []) ≡ find_in hash rows
unfolding find_in
find-append_other hash [] row h = rw h
find-append_other hash (r ∷ rows) row h = rw (find-append_other hash rows row h)

has-append :
    (hash : Text) (rows new : List KeyRow)
    → has_hash hash rows ≡ true
    → has_hash hash (rows ++ new) ≡ true
unfolding has_hash
has-append hash [] new h = cc
has-append hash (row ∷ rows) new h = ground (arith, has-append hash rows new)

other_hash :
    (a b : Text) (rows : List KeyRow)
    → has_hash a rows ≡ false
    → has_hash b rows ≡ true
    → text_eq a b ≡ false
other_hash a b rows ha hb = elim (Bool-cases (text_eq a b)) [
  | inl same ↦ let e = (text_eq_iff a b).0 same in absurd (false≢true (cc))
  | inr other ↦ other
]

keys-ensure_default :
    (now : ℕ) (db : Db) → (ensure_default_project now db).ingest_keys ≡ db.ingest_keys
unfolding ensure_default_project
keys-ensure_default now db = ground arith

module _ (sha256_hex : Text → Text) (now : ℕ) (id : Text) (db : Db) (hash : Text) where
  bootstrap-keys :
      (c : ℕ) (plaintext : Text)
      → (bootstrap_env_key sha256_hex now id db (c ∷ plaintext)).ingest_keys ≡ (
          if has_hash (sha256_hex (c ∷ plaintext)) db.ingest_keys
          then db.ingest_keys
          else db.ingest_keys ++ bootstrap_row sha256_hex now id (c ∷ plaintext) ∷ [])
  unfolding bootstrap_env_key
  bootstrap-keys c plaintext =
      let same = keys-ensure_default now db in
      elim (Bool-cases (has_hash (sha256_hex (c ∷ plaintext)) db.ingest_keys)) [
        | inl old ↦ rw (same, old) same
        | inr new ↦ rw (same, new) refl
      ]

  -- A key that was found still is.
  pub find-bootstrap_found :
      (plaintext : Text) {p : Text}
      → find_by_key_hash db hash ≡ some p
      → find_by_key_hash (bootstrap_env_key sha256_hex now id db plaintext) hash ≡ some p
  unfolding bootstrap_env_key
  find-bootstrap_found [] h = h
  find-bootstrap_found (c ∷ plaintext) h =
      rw (bootstrap-keys c plaintext)
        (elim (Bool-cases (has_hash (sha256_hex (c ∷ plaintext)) db.ingest_keys)) [
          | inl old ↦ rw old h
          | inr new ↦ rw new (find-append_found hash db.ingest_keys _ h)
        ])

  -- A key that is on record, revoked or not, is not touched.
  pub find-bootstrap_known :
      (plaintext : Text)
      → has_hash hash db.ingest_keys ≡ true
      → (find_by_key_hash (bootstrap_env_key sha256_hex now id db plaintext) hash
          ≡ find_by_key_hash db hash)
        × (has_hash hash (bootstrap_env_key sha256_hex now id db plaintext).ingest_keys ≡ true)
  unfolding bootstrap_env_key
  find-bootstrap_known [] h = (refl, h)
  find-bootstrap_known (c ∷ plaintext) h =
      rw (bootstrap-keys c plaintext)
        (elim (Bool-cases (has_hash (sha256_hex (c ∷ plaintext)) db.ingest_keys)) [
          | inl old ↦ rw old (refl, h)
          | inr new ↦ rw new (
            find-append_other hash db.ingest_keys _ (other_hash _ hash db.ingest_keys new h),
            has-append hash db.ingest_keys _ h,
          )
        ])

-- Revoking the only key with the hash leaves none that is active, and its row on record.
pub find-revoke_rows :
    (now : ℕ) (key_id hash : Text) (rows : List KeyRow)
    → All (λ row. row.key_hash ≡ hash → row.id ≡ key_id) rows
    → (find_in hash (revoke_rows now key_id rows).0 ≡ none)
      × (has_hash hash (revoke_rows now key_id rows).0 ≡ has_hash hash rows)
unfolding find_in has_hash revoke_rows
find-revoke_rows now key_id hash [] h = (refl, refl)
find-revoke_rows now key_id hash (row ∷ rows) h =
    let (no_active, on_record) = find-revoke_rows now key_id hash rows h.1 in
    elim (Bool-cases (text_eq row.key_hash hash)) [
      | inl ours ↦
          let its_id =
            (text_eq_iff row.id key_id).1 (h.0 ((text_eq_iff row.key_hash hash).0 ours)) in
          ground arith
      | inr other ↦ ground arith
    ]
