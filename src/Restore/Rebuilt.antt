-- ===== src/Restore/Rebuilt.antt =====
-- The trade index after a restore.
use mostro_ts_client.Common.{
  String, ◌≡◌, refl, ◌∙◌, inl, inr, Option, none, some, List, [], ◌∷◌, string_eq, String-discrete,
  Bool-cases, arith, is_some, or_default, ==_of_eq, ==_of_ne,
}
use mathlib.Core.Option
use mostro_ts_client.Common.Int.{ℤ, pos, ◌≤ℤ◌, ltb_ℤ}
use mostro_ts_client.Common.Lists.{All}
use mostro_ts_client.Message.{RestoreSessionInfo, RestoredOrdersInfo, RestoredDisputesInfo}
use mostro_ts_client.Store.{UserRow, SaveOrderInput, Store}
use mostro_ts_client.Restore.{
  RestoreSummary, LastTradeIndexInfo, larger, max_of_orders, max_of_disputes, effective_last,
  fresh_summary, has_details, stub, advance_index, restore_order, restore_orders, restore_solver,
  restore_dispute, restore_disputes, rebuild,
}

-- the local user's index, 0 where none is known
abbrev pub index_of : Option UserRow → ℤ
index_of user = or_default (Option.map (λ u. or_default u.last_trade_index (pos 0)) user) (pos 0)

max_orders_start : (m : ℤ) (os : List RestoredOrdersInfo) → m ≤ℤ max_of_orders m os
unfolding max_of_orders
max_orders_start m [] = ground arith
max_orders_start m (o ∷ os) =
    let rest = max_orders_start (larger m o.trade_index) os in ground arith

max_orders_All :
    (m k : ℤ) (os : List RestoredOrdersInfo)
    → max_of_orders m os ≤ℤ k
    → All (λ o. o.trade_index ≤ℤ k) os
unfolding max_of_orders
max_orders_All m k [] h = tt
max_orders_All m k (o ∷ os) h = (
  let rest = max_orders_start (larger m o.trade_index) os in ground arith,
  max_orders_All (larger m o.trade_index) k os h,
)

max_disputes_start : (m : ℤ) (ds : List RestoredDisputesInfo) → m ≤ℤ max_of_disputes m ds
unfolding max_of_disputes
max_disputes_start m [] = ground arith
max_disputes_start m (d ∷ ds) =
    let rest = max_disputes_start (larger m d.trade_index) ds in ground arith

max_disputes_All :
    (m k : ℤ) (ds : List RestoredDisputesInfo)
    → max_of_disputes m ds ≤ℤ k
    → All (λ d. d.trade_index ≤ℤ k) ds
unfolding max_of_disputes
max_disputes_All m k [] h = tt
max_disputes_All m k (d ∷ ds) h = (
  let rest = max_disputes_start (larger m d.trade_index) ds in ground arith,
  max_disputes_All (larger m d.trade_index) k ds h,
)

module _ (store : Store) where
  open store use {
    S, get_order, save_order, update_order_status, update_last_seen_dm_ts, update_dispute_id,
    update_solver_chat,
  }

  -- What a backend promises of its users: an upsert of the local user, or of a first one, stores at least the
  -- index given, no upsert moves the local user's index back, and the operations on orders leave the users alone.
  pub record IsUserStore (get_user : S → Option UserRow) (upsert_user : UserRow → S → S)
      : Type 0 where
    pub upserted :
        (user : UserRow) (index : ℤ) (s : S)
        → user.last_trade_index ≡ some index
        → ((u : UserRow) → get_user s ≡ some u → u.i0_pubkey ≡ user.i0_pubkey)
        → index ≤ℤ index_of (get_user (upsert_user user s))
    pub forward :
        (user : UserRow) (s : S) (u : UserRow)
        → get_user s ≡ some u
        → or_default u.last_trade_index (pos 0) ≤ℤ index_of (get_user (upsert_user user s))
    pub user-save : (order : SaveOrderInput) (s : S) → get_user (save_order order s).0 ≡ get_user s
    pub user-status :
        (key status : String) (s : S) → get_user (update_order_status key status s) ≡ get_user s
    pub user-dispute :
        (key dispute : String) (s : S) → get_user (update_dispute_id key dispute s) ≡ get_user s
    pub user-seen :
        (key : String) (ts : ℤ) (s : S) → get_user (update_last_seen_dm_ts key ts s) ≡ get_user s
    pub user-solver :
        (key solver shared : String) (s : S)
        → get_user (update_solver_chat key solver shared s) ≡ get_user s

module _ (store : Store) (get_user : store.S → Option UserRow)
    (upsert_user : UserRow → store.S → store.S) (secret_at : ℤ → String)
    (conv_secret : String → String → String) (users : IsUserStore store get_user upsert_user) where
  open store use {
    S, get_order, save_order, update_order_status, update_dispute_id, update_solver_chat,
  }

  index-advance :
      (identity : String) (now last : ℤ) (s : S)
      → ((u : UserRow) → get_user s ≡ some u → u.i0_pubkey ≡ identity)
      → last
        ≤ℤ index_of (
            get_user
              (advance_index store get_user upsert_user secret_at conv_secret identity now last s))
  unfolding advance_index
  index-advance identity now last s own = elim (Bool-cases (ltb_ℤ (index_of (get_user s)) last)) [
    | inl e ↦ rw e (users.upserted _ last s refl own)
    | inr e ↦ rw e (ground arith)
  ]

  user-orders :
      (infos : List RestoredOrdersInfo) (acc : S × RestoreSummary)
      → get_user (restore_orders store get_user upsert_user secret_at conv_secret infos acc).0
        ≡ get_user acc.0
  unfolding restore_orders restore_order
  user-orders [] acc = refl
  user-orders (info ∷ infos) (s, m) =
      user-orders infos (restore_order store get_user upsert_user secret_at conv_secret info (s, m))
      ∙ elim (Bool-cases (has_details (get_order info.order_id s))) [
        | inl e ↦ rw e (users.user-status info.order_id info.status s)
        | inr e ↦ rw e (users.user-save (stub info (secret_at info.trade_index)) s)
      ]

  user-solver :
      (d : RestoredDisputesInfo) (solver : Option String) (s : S)
      → get_user (restore_solver store get_user upsert_user secret_at conv_secret d solver s)
        ≡ get_user s
  unfolding restore_solver
  user-solver d none s = refl
  user-solver d (some pubkey) s = elim (String-discrete pubkey "") [
    | yes e ↦ rw (==_of_eq pubkey "" e)
    | no n ↦ rw (==_of_ne pubkey "" n) (users.user-solver _ _ _ s)
  ]

  user-disputes :
      (ds : List RestoredDisputesInfo) (acc : S × RestoreSummary)
      → get_user (restore_disputes store get_user upsert_user secret_at conv_secret ds acc).0
        ≡ get_user acc.0
  unfolding restore_disputes restore_dispute
  user-disputes [] acc = refl
  user-disputes (d ∷ ds) (s, m) =
      user-disputes ds (restore_dispute store get_user upsert_user secret_at conv_secret d (s, m))
      ∙ elim (Bool-cases (is_some (get_order d.order_id s))) [
        | inl e ↦ rw e (rw (user-solver, users.user-dispute, users.user-status))
        | inr e ↦ rw e
      ]

  -- After a restore the local user's trade index is at least the index of every order and every dispute of the
  -- reply and the last index that the daemon reports, if the database holds no other identity: no key that was used
  -- before is reserved again.
  pub rebuild_index_safe :
      (identity : String) (now : ℤ) (info : RestoreSessionInfo) (last : LastTradeIndexInfo) (s : S)
      → ((u : UserRow) → get_user s ≡ some u → u.i0_pubkey ≡ identity)
      → let k = index_of (
          get_user
            (rebuild store get_user upsert_user secret_at conv_secret identity now info last
              s).0) in
        All (λ o. o.trade_index ≤ℤ k) info.orders
        × All (λ d. d.trade_index ≤ℤ k) info.disputes
        × (last.last_used_index ≤ℤ k)
  unfolding rebuild effective_last
  rebuild_index_safe identity now info last s own =
      let s1 =
        advance_index store get_user upsert_user secret_at conv_secret identity now
          (effective_last info last.last_used_index) s in
      let after =
        restore_orders store get_user upsert_user secret_at conv_secret info.orders
          (s1, fresh_summary info) in
      let k = index_of (get_user s1) in
      let advanced : effective_last info last.last_used_index ≤ℤ k =
        index-advance identity now _ s own in
      let start = max_disputes_start (max_of_orders (pos 0) info.orders) info.disputes in
      rw (user-disputes info.disputes after, user-orders info.orders (s1, fresh_summary info))
        (
          max_orders_All (pos 0) k info.orders (ground arith),
          max_disputes_All (max_of_orders (pos 0) info.orders) k info.disputes (ground arith),
          ground arith,
        )
