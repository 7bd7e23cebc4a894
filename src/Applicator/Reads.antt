-- ===== src/Applicator/Reads.antt =====
-- The rows after a message is applied, as a client reads them, over any backend that keeps its
-- promises.
use mostro_ts_client.Common.{
  String, ◌≡◌, refl, sym, ap, ◌≢◌, Option, none, some, if◌then◌else◌, ◌==◌, String-discrete,
  or_default, Option-cases, inl, inr, ==_of_ne, ==_of_eq, string_eq,
}
use mathlib.Core.Option
use mostro_ts_client.Action.{action_eq}
use mostro_ts_client.Order.{SmallOrder}
use mostro_ts_client.Message.{MessageKind, Message}
use mostro_ts_client.Store.{
  OrderRow, Store, IsStore, kept, saved_row, with_status, with_dispute, with_solver,
}
use mostro_ts_client.Applicator.{
  small_order_from_payload, applied_status, identified, snapshot, persist, announced,
  persist_dispute, assigned, persist_solver, apply_trade_dm,
}
use mostro_ts_client.Applicator.Candidate.{applied_status_guarded, nonempty_text}

-- the row that a dispute or a solver is written to
unfoldable pub disputed : Option String → OrderRow → OrderRow
disputed none r = r
disputed (some d) r = with_dispute d r

unfoldable pub solved : Option (String × String) → OrderRow → OrderRow
solved none r = r
solved (some (pubkey, shared)) r = with_solver pubkey (some shared) r

unfoldable pub moved : Option String → OrderRow → OrderRow
moved none r = r
moved (some status) r = with_status status r

module _ (store : Store) (laws : IsStore store) (pubkey_from_secret : String → String)
    (derive_conv_secret : String → String → String) (order_id secret : String) where
  open store use {S, get_order}

  map_self : (o : Option OrderRow) → Option.map (λ r. r) o ≡ o
  map_self none = refl
  map_self (some r) = refl

  read-dispute :
      (d : Option String) (s : S)
      → get_order order_id
          (persist_dispute store pubkey_from_secret derive_conv_secret order_id d s)
        ≡ Option.map (disputed d) (get_order order_id s)
  unfolding persist_dispute disputed
  read-dispute none s = sym (map_self (get_order order_id s))
  read-dispute (some d) s =
      rw (laws.get-update_dispute order_id d order_id s, ==_of_eq order_id order_id refl)

  read-solver :
      (a : Option (String × String)) (s : S)
      → get_order order_id (persist_solver store pubkey_from_secret derive_conv_secret order_id a s)
        ≡ Option.map (solved a) (get_order order_id s)
  unfolding persist_solver solved
  read-solver none s = sym (map_self (get_order order_id s))
  read-solver (some (pubkey, shared)) s =
      rw (laws.get-update_solver order_id pubkey shared order_id s, ==_of_eq order_id order_id refl)

  -- the row that `persist` leaves, of the row that it meets
  unfoldable pub persisted :
      MessageKind → Option String → Option OrderRow → Option SmallOrder → Option OrderRow
  unfolding snapshot
  persisted kind applied existing (some order) = some (
      saved_row
        (snapshot store pubkey_from_secret derive_conv_secret order_id secret kind existing applied
          order)
        (or_default (kept (λ r. r.trade_keys) existing) "") existing)
  persisted kind applied existing none = Option.map (moved applied) existing

  read-status :
      (applied : Option String) (s : S)
      → applied ≢ some ""
      → get_order order_id (elim applied [
        | none ↦ s
        | some status ↦ if status == "" then s else store.update_order_status order_id status s
      ])
        ≡ Option.map (moved applied) (get_order order_id s)
  unfolding moved
  read-status none s h = sym (map_self (get_order order_id s))
  read-status (some status) s h = rw (
    ==_of_ne status "" (λ e. h (ap some e)),
    laws.get-update_status order_id status order_id s,
    ==_of_eq order_id order_id refl,
  )

  read-persist :
      (kind : MessageKind) (applied : Option String) (s : S)
      → applied ≢ some ""
      → get_order order_id (
          persist store pubkey_from_secret derive_conv_secret order_id secret kind
            (get_order order_id s)
            applied
            s)
        ≡ persisted kind applied
            (get_order order_id s)
            (identified (small_order_from_payload kind.action kind.payload))
  unfolding persist persisted snapshot
  read-persist kind applied s h =
      elim (Option-cases (identified (small_order_from_payload kind.action kind.payload))) [
        | inl e ↦ rw (e, persist) (read-status applied s h)
        | inr (order, e) ↦ rw (
          e,
          persist,
          laws.get-save
              (snapshot store pubkey_from_secret derive_conv_secret order_id secret kind
                (get_order order_id s) applied order)
              order_id s,
          ==_of_eq order_id order_id refl,
        )
      ]

  applied_nonempty :
      (existing : Option OrderRow) (kind : MessageKind) → applied_status existing kind ≢ some ""
  applied_nonempty existing kind h =
      let (n, d, same, of_p, accepted) = applied_status_guarded existing kind "" h in
      nonempty_text d (sym same)

  -- the row after the whole handler
  pub read-apply :
      (message : Message) (s : S)
      → let kind = message.value in
        get_order order_id
          (apply_trade_dm store pubkey_from_secret derive_conv_secret order_id secret message s).0
        ≡ Option.map
            (solved (
              assigned store pubkey_from_secret derive_conv_secret secret kind.action kind.payload))
            (Option.map (disputed (announced kind.action kind.payload)) (
              persisted kind
                (applied_status (get_order order_id s) kind)
                (get_order order_id s)
                (identified (small_order_from_payload kind.action kind.payload))))
  unfolding apply_trade_dm
  read-apply message s = rw (
    read-solver,
    read-dispute,
    read-persist message.value (applied_status (get_order order_id s) message.value) s
        (applied_nonempty (get_order order_id s) message.value),
  )

  module _ (id : String) (other : order_id ≢ id) where
    frame-dispute :
        (d : Option String) (s : S)
        → get_order id (persist_dispute store pubkey_from_secret derive_conv_secret order_id d s)
          ≡ get_order id s
    unfolding persist_dispute
    frame-dispute none s = refl
    frame-dispute (some d) s =
        rw (laws.get-update_dispute order_id d id s, ==_of_ne order_id id other)

    frame-solver :
        (a : Option (String × String)) (s : S)
        → get_order id (persist_solver store pubkey_from_secret derive_conv_secret order_id a s)
          ≡ get_order id s
    unfolding persist_solver
    frame-solver none s = refl
    frame-solver (some (pubkey, shared)) s =
        rw (laws.get-update_solver order_id pubkey shared id s, ==_of_ne order_id id other)

    frame-status :
        (applied : Option String) (s : S)
        → get_order id (elim applied [
          | none ↦ s
          | some status ↦ if status == "" then s else store.update_order_status order_id status s
        ])
          ≡ get_order id s
    frame-status none s = refl
    frame-status (some status) s = elim (String-discrete status "") [
      | yes e ↦ rw (==_of_eq status "" e)
      | no n ↦ rw (
        ==_of_ne status "" n,
        laws.get-update_status order_id status id s,
        ==_of_ne order_id id other,
      )
    ]

    frame-persist :
        (kind : MessageKind) (existing : Option OrderRow) (applied : Option String) (s : S)
        → get_order id (
            persist store pubkey_from_secret derive_conv_secret order_id secret kind existing
              applied s)
          ≡ get_order id s
    unfolding persist snapshot
    frame-persist kind existing applied s =
        elim (Option-cases (identified (small_order_from_payload kind.action kind.payload))) [
          | inl e ↦ rw (e, persist) (frame-status applied s)
          | inr (order, e) ↦ rw (
            e,
            persist,
            laws.get-save
                (snapshot store pubkey_from_secret derive_conv_secret order_id secret kind existing
                  applied order)
                id s,
            ==_of_ne order_id id other,
          )
        ]

    -- A message of one order leaves the row of every other order as it was.
    pub apply_frame :
        (message : Message) (s : S)
        → get_order id
            (apply_trade_dm store pubkey_from_secret derive_conv_secret order_id secret message s).0
          ≡ get_order id s
    unfolding apply_trade_dm
    apply_frame message s =
        let existing = get_order order_id s in
        rw (
          frame-solver,
          frame-dispute,
          frame-persist message.value existing (applied_status existing message.value) s,
        )
