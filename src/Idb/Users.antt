-- ===== src/Idb/Users.antt =====
-- The trade index in the IndexedDB backend: reservation and the upsert.
use mostro_ts_client.Common.{
  String, Bool, true, ◌≡◌, refl, Option, none, some, List, [], ◌∷◌, string_eq, or_default, arith,
  ==_of_eq, ap, Option-cases, inl, inr,
}
use mostro_ts_client.Common.Int.{ℤ, pos, ◌+ℤ◌, ◌≤ℤ◌, max_ℤ, ltb_ℤ, +ℤ_parts}
use mostro_ts_client.Store.{UserRow}
use mostro_ts_client.Idb.{
  Db, user_key, first_user, get_user, merged_user, upsert_user, reserve_next_trade_index,
}
use mostro_ts_client.Idb.Table.{put}

max_next : (k : ℤ) → max_ℤ k (k +ℤ pos 1) ≡ k +ℤ pos 1
max_next k =
    let after : ltb_ℤ k (k +ℤ pos 1) ≡ true = ground (arith, +ℤ_parts k (pos 1)) in rw after

abbrev pub last_index : Option UserRow → Option ℤ
last_index none = none
last_index (some u) = u.last_trade_index

module _ (before : String → String → Bool) where
  -- a put under the key of the first row replaces it
  first-put :
      (users : List UserRow) (u row : UserRow)
      → first_user users ≡ some u
      → row.i0_pubkey ≡ u.i0_pubkey
      → first_user (put user_key before row users) ≡ some row
  unfolding put
  first-put [] u row e same = cc
  first-put (x ∷ users) u row e same =
      let key : x.i0_pubkey ≡ row.i0_pubkey = cc in rw (==_of_eq x.i0_pubkey row.i0_pubkey key)

  merged_key :
      (u user : UserRow)
      → user.i0_pubkey ≡ u.i0_pubkey
      → (merged_user (some u) user).i0_pubkey ≡ u.i0_pubkey
  merged_key u user same = ground arith

  get-upsert :
      (u user : UserRow) (db : Db)
      → get_user db ≡ some u
      → user.i0_pubkey ≡ u.i0_pubkey
      → get_user (upsert_user before user db) ≡ some (merged_user (some u) user)
  unfolding upsert_user get_user
  get-upsert u user db e same =
      rw (e, first-put db.users u (merged_user (some u) user) e (merged_key u user same))

  -- An upsert of the local user with an index never moves the index back.
  pub idb_upsert_monotone :
      (u user : UserRow) (old new : ℤ) (db : Db)
      → get_user db ≡ some u
      → user.i0_pubkey ≡ u.i0_pubkey
      → u.last_trade_index ≡ some old
      → user.last_trade_index ≡ some new
      → (stored : ℤ) × (last_index (get_user (upsert_user before user db)) ≡ some stored)
        × (old ≤ℤ stored)
        × (new ≤ℤ stored)
  idb_upsert_monotone u user old new db e same was given =
      (max_ℤ old new, rw (get-upsert u user db e same, was, given), ground arith, ground arith)

  -- An upsert of the local user whose index is null forgets the stored index.
  pub idb_upsert_forgets :
      (u user : UserRow) (db : Db)
      → get_user db ≡ some u
      → user.i0_pubkey ≡ u.i0_pubkey
      → user.last_trade_index ≡ none
      → last_index (get_user (upsert_user before user db)) ≡ none
  idb_upsert_forgets u user db e same given =
      rw (get-upsert u user db e same) (elim (Option-cases u.last_trade_index) [
        | inl never ↦ rw never given
        | inr (old, was) ↦ rw (was, given) given
      ])

  module _ (identity : String) (now : ℤ) where
    reserved_index :
        (base : ℤ) (db : Db)
        → (reserve_next_trade_index before identity now base db).1
          ≡ or_default (last_index (get_user db)) base +ℤ pos 1
    unfolding reserve_next_trade_index
    reserved_index base db = elim (Option-cases (get_user db)) [
      | inl e ↦ rw (e, reserve_next_trade_index)
      | inr (u, e) ↦ rw (e, reserve_next_trade_index)
    ]

    merged_next :
        (u : UserRow) (base : ℤ)
        → let index = or_default u.last_trade_index base +ℤ pos 1 in
          (merged_user (some u) (record u { last_trade_index = some index })).last_trade_index
          ≡ some index
    merged_next u base = elim (Option-cases u.last_trade_index) [
      | inl e ↦ rw e
      | inr (k, e) ↦ rw e (ap some (max_next k))
    ]

    first-put_empty :
        (users : List UserRow) (row : UserRow)
        → first_user users ≡ none
        → first_user (put user_key before row users) ≡ some row
    unfolding put
    first-put_empty [] row e = refl
    first-put_empty (u ∷ users) row e = cc

    get-upsert_empty :
        (db : Db) (row : UserRow)
        → get_user db ≡ none
        → get_user (upsert_user before row db) ≡ some row
    unfolding upsert_user get_user
    get-upsert_empty db row e = rw e (first-put_empty db.users row e)

    reserved_stored :
        (base : ℤ) (db : Db)
        → last_index (get_user (reserve_next_trade_index before identity now base db).0)
          ≡ some (or_default (last_index (get_user db)) base +ℤ pos 1)
    unfolding reserve_next_trade_index
    reserved_stored base db = elim (Option-cases (get_user db)) [
      | inl e ↦
          rw (e, reserve_next_trade_index)
            (rw (
              get-upsert_empty db
                (record {
                  i0_pubkey = identity;
                  last_trade_index = some (base +ℤ pos 1);
                  created_at = now;
                })
                e))
      | inr (u, e) ↦
          let next = or_default u.last_trade_index base +ℤ pos 1 in
          rw (e, reserve_next_trade_index)
            (rw (get-upsert u (record u { last_trade_index = some next }) db e refl)
              (merged_next u base))
    ]

    -- Every reservation returns the index after the last one, after the base on a first use, and stores it, with
    -- a row for the local user or without one: the second of two, from any bases, returns the next index.
    pub idb_reserve_twice :
        (base again : ℤ) (db : Db)
        → let (db', first_index) = reserve_next_trade_index before identity now base db in
          (first_index ≡ or_default (last_index (get_user db)) base +ℤ pos 1)
          × ((reserve_next_trade_index before identity now again db').1 ≡ first_index +ℤ pos 1)
    idb_reserve_twice base again db =
        let db' = (reserve_next_trade_index before identity now base db).0 in
        (
          reserved_index base db,
          rw (reserved_index again db', reserved_stored base db, reserved_index base db),
        )
