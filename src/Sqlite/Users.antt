-- ===== src/Sqlite/Users.antt =====
-- The trade index in the users table: reservation and the upsert.
use mostro_ts_client.Common.{
  ◌≡◌, refl, Option, some, List, [], ◌∷◌, string_eq, String-discrete, or_default, arith, ==_of_eq,
  ==_of_ne,
}
use mostro_ts_client.Common.Int.{ℤ, pos, ◌+ℤ◌, ◌≤ℤ◌}
use mostro_ts_client.Encryption.{FieldEncryptor}
use mostro_ts_client.Restore.Rebuilt.{IsUserStore, index_of}
use mostro_ts_client.Sqlite.Orders.{sqlite_store}
use mostro_ts_client.Store.{UserRow}
use mostro_ts_client.Sqlite.{
  Db, save_order, update_order_status, update_last_seen_dm_ts, update_dispute_id,
  update_solver_chat, first, insert_user, upsert_user, get_user, newer_index,
  reserve_next_trade_index,
}

-- the row of the local user after a reservation
reserved_user :
    (base : ℤ) (db : Db) (u : UserRow) (us : List UserRow)
    → db.users ≡ u ∷ us
    → let next = or_default u.last_trade_index base +ℤ pos 1 in
      (get_user (reserve_next_trade_index base db).0
        ≡ some (record u { last_trade_index = some next }))
      × ((reserve_next_trade_index base db).1 ≡ next)
unfolding reserve_next_trade_index
reserved_user base db u us e = rw e (rw (==_of_eq u.i0_pubkey u.i0_pubkey refl) (refl, refl))

first_cons :
    (us : List UserRow) (u : UserRow) → first us ≡ some u → (rest : List UserRow) × (us ≡ u ∷ rest)
first_cons [] u e = cc
first_cons (x ∷ rest) u e = (rest, cc)

-- the index that a reservation returns, by the local user's row
reserved_index :
    (base : ℤ) (db : Db) (u : UserRow)
    → get_user db ≡ some u
    → (reserve_next_trade_index base db).1 ≡ or_default u.last_trade_index base +ℤ pos 1
unfolding reserve_next_trade_index
reserved_index base db u e = rw e

-- Where the local user has a row, a reservation returns the index after the last one (after the base
-- on a first use), stores it, and the next reservation, from any base, returns the index after that:
-- no index is handed out twice.
pub reserve_twice :
    (base again : ℤ) (db : Db) (u : UserRow)
    → get_user db ≡ some u
    → let (db', first_index) = reserve_next_trade_index base db in
      (first_index ≡ or_default u.last_trade_index base +ℤ pos 1)
      × ((reserve_next_trade_index again db').1 ≡ first_index +ℤ pos 1)
unfolding get_user
reserve_twice base again db u e =
    let (rest, listed) = first_cons db.users u e in
    let (stored, index) = reserved_user base db u rest listed in
    (index, rw index (reserved_index again (reserve_next_trade_index base db).0 _ stored))

upserted :
    (user : UserRow) (us : List UserRow) (u : UserRow)
    → first us ≡ some u
    → (v : UserRow) × (first (insert_user user us) ≡ some v)
      × (v.i0_pubkey ≡ u.i0_pubkey)
      × (or_default u.last_trade_index (pos 0) ≤ℤ or_default v.last_trade_index (pos 0))
unfolding insert_user
upserted user [] u e = cc
upserted user (x ∷ us) u e = elim (String-discrete x.i0_pubkey user.i0_pubkey) [
  | yes p ↦ (
    record x {
      last_trade_index = some (newer_index x.last_trade_index user.last_trade_index);
      created_at = user.created_at;
    },
    rw (==_of_eq x.i0_pubkey user.i0_pubkey p),
    cc,
    ground arith,
  )
  | no n ↦ (x, rw (==_of_ne x.i0_pubkey user.i0_pubkey n), cc, ground arith)
]

-- An upsert never moves the local user's trade index back, read as 0 where it is null, whatever row it
-- is given.
pub upsert_user_monotone :
    (user : UserRow) (db : Db) (u : UserRow)
    → get_user db ≡ some u
    → (v : UserRow) × (get_user (upsert_user user db) ≡ some v)
      × (v.i0_pubkey ≡ u.i0_pubkey)
      × (or_default u.last_trade_index (pos 0) ≤ℤ or_default v.last_trade_index (pos 0))
unfolding get_user upsert_user
upsert_user_monotone user db u e = upserted user db.users u e

-- an upsert of any row leaves the index of a local user where it is or moves it on
index-moved :
    (user : UserRow) (us : List UserRow) (u : UserRow)
    → first us ≡ some u
    → or_default u.last_trade_index (pos 0) ≤ℤ index_of (first (insert_user user us))
index-moved user us u h = let (v, e, same, moved) = upserted user us u h in rw e moved

index-insert :
    (user : UserRow) (index : ℤ) (us : List UserRow)
    → user.last_trade_index ≡ some index
    → ((u : UserRow) → first us ≡ some u → u.i0_pubkey ≡ user.i0_pubkey)
    → index ≤ℤ index_of (first (insert_user user us))
unfolding insert_user
index-insert user index [] given own = rw given (ground arith)
index-insert user index (x ∷ us) given own =
    let old = or_default x.last_trade_index (pos 0) in
    rw (==_of_eq x.i0_pubkey user.i0_pubkey (own x refl)) (rw given (ground arith))

-- the two operations on users, over the state of the backend
unfoldable pub stored_user : (enc : Option FieldEncryptor) → (sqlite_store enc).S → Option UserRow
unfolding sqlite_store get_user
stored_user enc = get_user

unfoldable pub store_user :
    (enc : Option FieldEncryptor) → UserRow → (sqlite_store enc).S → (sqlite_store enc).S
unfolding sqlite_store upsert_user
store_user enc = upsert_user

-- The SQLite backend keeps the promises on users: an upsert of the local user, or of a first one, stores at least
-- the index given; no upsert moves the index of the local user back; and a save of an order and the updates of
-- its status, its last seen time, its dispute and its solver chat leave the users as they were.
pub sqlite_store-IsUserStore :
    (enc : Option FieldEncryptor)
    → IsUserStore (sqlite_store enc) (stored_user enc) (store_user enc)
unfolding sqlite_store stored_user store_user get_user upsert_user save_order update_order_status
    update_last_seen_dm_ts update_dispute_id update_solver_chat
sqlite_store-IsUserStore enc = record {
  upserted = λ user index db given own. index-insert user index db.users given own;
  forward = λ user db u e. index-moved user db.users u e;
  user-seen = λ key ts db. refl;
  user-save = λ order db. refl;
  user-status = λ key status db. refl;
  user-dispute = λ key dispute db. refl;
  user-solver = λ key solver shared db. refl;
}
