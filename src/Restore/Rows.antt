-- ===== src/Restore/Rows.antt =====
-- The rows of the orders after a restore.
use mostro_ts_client.Common.{
  String, Bool, true, false, ◌≡◌, refl, ◌∙◌, ap, Option, none, some, List, [], ◌∷◌, if◌then◌else◌,
  ◌==◌, string_eq, String-discrete, Bool-cases, inl, inr, is_some, ==_of_eq, ==_of_ne,
}
use mathlib.Core.Option
use mostro_ts_client.Common.Int.{ℤ}
use mostro_ts_client.Common.Lists.{All}
use mostro_ts_client.Message.{RestoreSessionInfo, RestoredOrdersInfo, RestoredDisputesInfo}
use mostro_ts_client.Store.{
  UserRow, OrderRow, SaveOrderInput, Store, IsStore, with_status, with_dispute, with_solver,
}
use mostro_ts_client.Restore.{
  RestoreSummary, LastTradeIndexInfo, effective_last, fresh_summary, has_details, stub,
  advance_index, restore_order, restore_orders, restore_solver, restore_dispute, restore_disputes,
  rebuild,
}

module _ (store : Store) (laws : IsStore store) (get_user : store.S → Option UserRow)
    (upsert_user : UserRow → store.S → store.S) (secret_at : ℤ → String)
    (conv_secret : String → String → String) where
  open store use {
    S, get_order, save_order, update_order_status, update_dispute_id, update_solver_chat,
  }

  -- an update keeps the rows that there are
  is_some-mapped :
      (b : Bool) (f : OrderRow → OrderRow) (o : Option OrderRow)
      → is_some (if b then Option.map f o else o) ≡ is_some o
  is_some-mapped true f none = refl
  is_some-mapped true f (some r) = refl
  is_some-mapped false f o = refl

  present-status :
      (key status id : String) (s : S)
      → is_some (get_order id (update_order_status key status s)) ≡ is_some (get_order id s)
  present-status key status id s =
      ap is_some (laws.get-update_status key status id s)
      ∙ is_some-mapped (key == id) (with_status status) (get_order id s)

  present-dispute :
      (key dispute id : String) (s : S)
      → is_some (get_order id (update_dispute_id key dispute s)) ≡ is_some (get_order id s)
  present-dispute key dispute id s =
      ap is_some (laws.get-update_dispute key dispute id s)
      ∙ is_some-mapped (key == id) (with_dispute dispute) (get_order id s)

  present-solver :
      (key solver shared id : String) (s : S)
      → is_some (get_order id (update_solver_chat key solver shared s)) ≡ is_some (get_order id s)
  present-solver key solver shared id s =
      ap is_some (laws.get-update_solver key solver shared id s)
      ∙ is_some-mapped (key == id) (with_solver solver (some shared)) (get_order id s)

  -- the row saved, and the others
  present-save :
      (order : SaveOrderInput) (id : String) (s : S)
      → is_some (get_order id s) ≡ true
      → is_some (get_order id (save_order order s).0) ≡ true
  present-save order id s h = elim (Bool-cases (order.id == id)) [
    | inl e ↦ rw (laws.get-save order id s, e)
    | inr e ↦ rw (laws.get-save order id s, e) h
  ]

  saved_present :
      (order : SaveOrderInput) (s : S) → is_some (get_order order.id (save_order order s).0) ≡ true
  saved_present order s = rw (laws.get-save order order.id s, ==_of_eq order.id order.id refl)

  present-order :
      (info : RestoredOrdersInfo) (m : RestoreSummary) (id : String) (s : S)
      → is_some (get_order id s) ≡ true
      → is_some (
          get_order id
            (restore_order store get_user upsert_user secret_at conv_secret info (s, m)).0)
        ≡ true
  unfolding restore_order
  present-order info m id s h = elim (Bool-cases (has_details (get_order info.order_id s))) [
    | inl e ↦ rw e (present-status info.order_id info.status id s ∙ h)
    | inr e ↦ rw e (present-save (stub info (secret_at info.trade_index)) id s h)
  ]

  some_of_details : (o : Option OrderRow) → has_details o ≡ true → is_some o ≡ true
  some_of_details none h = h
  some_of_details (some r) h = refl

  restored_present :
      (info : RestoredOrdersInfo) (m : RestoreSummary) (s : S)
      → is_some (
          get_order info.order_id
            (restore_order store get_user upsert_user secret_at conv_secret info (s, m)).0)
        ≡ true
  unfolding restore_order
  restored_present info m s = elim (Bool-cases (has_details (get_order info.order_id s))) [
    | inl e ↦ rw e (
        present-status info.order_id info.status info.order_id s
        ∙ some_of_details (get_order info.order_id s) e)
    | inr e ↦ rw e (saved_present (stub info (secret_at info.trade_index)) s)
  ]

  present-orders :
      (infos : List RestoredOrdersInfo) (acc : S × RestoreSummary) (id : String)
      → is_some (get_order id acc.0) ≡ true
      → is_some (
          get_order id
            (restore_orders store get_user upsert_user secret_at conv_secret infos acc).0)
        ≡ true
  unfolding restore_orders
  present-orders [] acc id h = h
  present-orders (info ∷ infos) (s, m) id h =
      present-orders infos
        (restore_order store get_user upsert_user secret_at conv_secret info (s, m)) id
        (present-order info m id s h)

  present-dispute_step :
      (d : RestoredDisputesInfo) (m : RestoreSummary) (id : String) (s : S)
      → is_some (get_order id s) ≡ true
      → is_some (
          get_order id
            (restore_dispute store get_user upsert_user secret_at conv_secret d (s, m)).0)
        ≡ true
  unfolding restore_dispute
  present-dispute_step d m id s h = elim (Bool-cases (is_some (get_order d.order_id s))) [
    | inr e ↦ rw e h
    | inl e ↦ rw e (
        solved d.solver_pubkey
          (update_dispute_id d.order_id d.dispute_id (update_order_status d.order_id "dispute" s))
          (present-dispute d.order_id d.dispute_id id (update_order_status d.order_id "dispute" s)
            ∙ present-status d.order_id "dispute" id s
            ∙ h))
  ]
    where
      solved :
          (solver : Option String) (t : S)
          → is_some (get_order id t) ≡ true
          → is_some (
              get_order id
                (restore_solver store get_user upsert_user secret_at conv_secret d solver t))
            ≡ true
      solved none t k = k
      solved (some pubkey) t k = elim (String-discrete pubkey "") [
        | yes e ↦ rw (restore_solver, ==_of_eq pubkey "" e) k
        | no n ↦ rw (restore_solver, ==_of_ne pubkey "" n) (present-solver _ _ _ id t ∙ k)
      ]

  present-disputes :
      (ds : List RestoredDisputesInfo) (acc : S × RestoreSummary) (id : String)
      → is_some (get_order id acc.0) ≡ true
      → is_some (
          get_order id (restore_disputes store get_user upsert_user secret_at conv_secret ds acc).0)
        ≡ true
  unfolding restore_disputes
  present-disputes [] acc id h = h
  present-disputes (d ∷ ds) (s, m) id h =
      present-disputes ds
        (restore_dispute store get_user upsert_user secret_at conv_secret d (s, m)) id
        (present-dispute_step d m id s h)

  All-present :
      (infos : List RestoredOrdersInfo) (acc : S × RestoreSummary)
      → All
          (λ info.
            is_some (
              get_order info.order_id
                (restore_orders store get_user upsert_user secret_at conv_secret infos acc).0)
            ≡ true)
          infos
  unfolding restore_orders
  All-present [] acc = tt
  All-present (info ∷ infos) (s, m) =
      let next = restore_order store get_user upsert_user secret_at conv_secret info (s, m) in
      (present-orders infos next info.order_id (restored_present info m s), All-present infos next)

  All-map :
      {P Q : RestoredOrdersInfo → Type 0} (infos : List RestoredOrdersInfo)
      → ((i : RestoredOrdersInfo) → P i → Q i)
      → All P infos
      → All Q infos
  All-map [] f h = tt
  All-map (i ∷ infos) f (h, hs) = (f i h, All-map infos f hs)

  -- After a restore every order of the reply has a row in the database, over any backend that keeps its
  -- promises, whatever the disputes of the reply are.
  pub rebuild_orders_present :
      (identity : String) (now : ℤ) (info : RestoreSessionInfo) (last : LastTradeIndexInfo) (s : S)
      → let s' =
          (rebuild store get_user upsert_user secret_at conv_secret identity now info last s).0 in
        All (λ o. is_some (get_order o.order_id s') ≡ true) info.orders
  unfolding rebuild
  rebuild_orders_present identity now info last s =
      let s1 =
        advance_index store get_user upsert_user secret_at conv_secret identity now
          (effective_last info last.last_used_index) s in
      let after =
        restore_orders store get_user upsert_user secret_at conv_secret info.orders
          (s1, fresh_summary info) in
      All-map info.orders (λ i h. present-disputes info.disputes after i.order_id h)
        (All-present info.orders (s1, fresh_summary info))
