-- ===== src/Tests/Database.antt =====
-- Examples for the backends and for messages applied to them.
use mostro_ts_client.Common.{
  ◌↔◌, List, [], ◌∷◌, String, ◌≡◌, refl, ◌⊎◌, true, false, Bool, none, some, String-discrete, ◌≢◌,
  is_some, ==_of_eq, string_eq,
}
use mostro_ts_client.Common.Int.{pos, ◌+ℤ◌}
use mostro_ts_client.Common.Text.{to_lower}
use mostro_ts_client.Status.{Status, success, status_to_string, status_from_string}
use mostro_ts_client.Action.{Action}
use mostro_ts_client.Encryption.{decrypt_string_or_null}
use mostro_ts_client.StateMachine.{
  is_terminal_trade_status, parse_status, parse_kind, should_apply_status_transition,
}
use mostro_ts_client.Message.{Message}
use mostro_ts_client.Store.{OrderRow, IsStore}
use mostro_ts_client.Sqlite
use mostro_ts_client.Sqlite.Orders.{sqlite_store, sqlite_store-IsStore}
use mostro_ts_client.Idb
use mostro_ts_client.Idb.Users.{idb_reserve_twice}
use mostro_ts_client.Idb.Orders.{idb_store, idb_store-IsStore}
use mostro_ts_client.Applicator.{apply_trade_dm}
use mostro_ts_client.Applicator.Candidate.{proposed}
use mostro_ts_client.Applicator.Guarded.{row_after, apply_guarded, apply_inserts_iff}
use mostro_ts_client.Applicator.Carried.{Brought}
use mostro_ts_client.Applicator.History.{Arrival, apply_history, history_terminal}
use mostro_ts_client.Applicator.Refusal.{apply_cant_do_inert}
use mostro_ts_client.Tests.{sample_row, sample_db, empty_db, idb_db, message_of}

sqlite_store-IsStore_example : IsStore (sqlite_store none)
sqlite_store-IsStore_example = sqlite_store-IsStore none

abbrev sooner : String → String → Bool
sooner x y = false

idb_store-IsStore_example : IsStore (idb_store sooner none)
idb_store-IsStore_example = idb_store-IsStore sooner none

-- the keys and secrets of the examples
abbrev key_of : String → String
key_of s = s

abbrev conv_of : String → String → String
conv_of s p = p

stored : (sqlite_store none).S
unfolding sqlite_store
stored = sample_db

nothing_stored : (sqlite_store none).S
unfolding sqlite_store
nothing_stored = empty_db

abbrev cancel : Message
cancel = message_of Action.canceled none

apply_guarded_example :
    (row' : OrderRow) × (row_after
        (sqlite_store none)
        (sqlite_store-IsStore none)
        key_of
        conv_of
        "o1"
        "secret"
        cancel
        stored
      ≡ some row')
    × ((row'.status ≡ sample_row.status)
        ⊎ ((d : Status) × (row'.status ≡ some (status_to_string d))
            × (proposed cancel.value.action cancel.value.payload ≡ some d)
            × (should_apply_status_transition
                  (parse_status sample_row.status)
                  d
                  (parse_kind sample_row.kind)
                  (some cancel.value.action)
                ≡ true)))
unfolding sqlite_store stored nothing_stored Sqlite.get_order Sqlite.order_decrypt
    decrypt_string_or_null String-discrete
apply_guarded_example =
    apply_guarded (sqlite_store none) (sqlite_store-IsStore none) key_of conv_of "o1" "secret"
      cancel stored sample_row refl

apply_inserts_iff_example :
    (is_some (
        row_after
          (sqlite_store none)
          (sqlite_store-IsStore none)
          key_of
          conv_of
          "o1"
          "secret"
          cancel
          nothing_stored)
      ≡ true)
    ↔ Brought cancel.value.action cancel.value.payload
unfolding sqlite_store stored nothing_stored Sqlite.get_order
apply_inserts_iff_example =
    apply_inserts_iff (sqlite_store none) (sqlite_store-IsStore none) key_of conv_of "o1" "secret"
      cancel nothing_stored refl

apply_cant_do_inert_example :
    let (s', result) =
      apply_trade_dm
        (sqlite_store none)
        key_of
        conv_of
        "o1"
        "secret"
        (message_of Action.cant_do none)
        stored in
    (s' ≡ stored)
    × (result.status ≡ none)
    × (result.dispute_id ≡ none)
    × (result.solver ≡ none)
    × (result.order_upserted ≡ false)
unfolding sqlite_store stored
apply_cant_do_inert_example =
    apply_cant_do_inert (sqlite_store none) key_of conv_of "o1" "secret"
      (message_of Action.cant_do none) stored refl

abbrev one : String
one = "o1"

abbrev two : String
two = "o2"

apart : one ≢ two
unfolding String-discrete
apart e = let b = ==_of_eq one two e in cc

abbrev arrivals : List Arrival
arrivals = record { order_id = "o1"; secret = "secret"; message = cancel } ∷ []

history_terminal_example :
    (row' : OrderRow) × ((sqlite_store none).get_order "o1"
        (apply_history (sqlite_store none) key_of conv_of arrivals stored)
      ≡ some row')
    × (parse_status row'.status ≡ some success)
unfolding sqlite_store stored Sqlite.get_order Sqlite.order_decrypt decrypt_string_or_null
    parse_status status_from_string to_lower is_terminal_trade_status String-discrete
history_terminal_example =
    history_terminal (sqlite_store none) key_of conv_of (sqlite_store-IsStore none) success "o1"
      arrivals stored sample_row refl refl refl (λ e. cc, tt)

idb_reserve_twice_example :
    let (db', first_index) = Idb.reserve_next_trade_index sooner "me" (pos 9) (pos 1) idb_db in
    (first_index ≡ pos 4 +ℤ pos 1)
    × ((Idb.reserve_next_trade_index sooner "me" (pos 9) (pos 0) db').1 ≡ first_index +ℤ pos 1)
unfolding Idb.get_user
idb_reserve_twice_example = idb_reserve_twice sooner "me" (pos 9) (pos 1) (pos 0) idb_db
