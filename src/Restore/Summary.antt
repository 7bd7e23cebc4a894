-- ===== src/Restore/Summary.antt =====
-- The counts that a restore reports.
use mostro_ts_client.Common.{
  ℕ, ◌+◌, ◌≤◌, String, ◌≡◌, refl, Option, List, [], ◌∷◌, Bool-cases, inl, inr, arith, is_some,
}
use mostro_ts_client.Common.Int.{ℤ}
use mostro_ts_client.Common.Lists.{length}
use mostro_ts_client.Message.{RestoreSessionInfo, RestoredOrdersInfo, RestoredDisputesInfo}
use mostro_ts_client.Store.{UserRow, Store}
use mostro_ts_client.Restore.{
  RestoreSummary, LastTradeIndexInfo, fresh_summary, has_details, with_stub, advance_index,
  restore_order, restore_orders, restore_dispute, restore_disputes, effective_last, rebuild,
}

-- The counts after `orders` orders and at most `failures` disputes without an order.
pub record Counts (orders disputes failures : ℕ) (m : RestoreSummary) : Type 0 where
  pub seen : m.restored + m.already_known ≡ orders
  pub bare : m.missing_details ≡ m.restored
  pub unknown : m.role_unknown ≤ m.restored
  pub sound : m.failed ≡ 0
  pub disputed : m.disputes ≡ disputes
  pub unmatched : m.dispute_status_failed ≤ failures

stub-Counts :
    (n d f : ℕ) (status : String) (m : RestoreSummary)
    → Counts n d f m
    → Counts (n + 1) d f (with_stub status m)
stub-Counts n d f status m c = record {
  seen = let e = c.seen in ground arith;
  bare = let e = c.bare in ground arith;
  unknown = let e = c.unknown in ground arith;
  sound = c.sound;
  disputed = c.disputed;
  unmatched = c.unmatched;
}

known-Counts :
    (n d f : ℕ) (m : RestoreSummary)
    → Counts n d f m
    → Counts (n + 1) d f (record m { already_known = m.already_known + 1 })
known-Counts n d f m c = record {
  seen = let e = c.seen in ground arith;
  bare = c.bare;
  unknown = c.unknown;
  sound = c.sound;
  disputed = c.disputed;
  unmatched = c.unmatched;
}

failed-Counts :
    (n d f : ℕ) (m : RestoreSummary)
    → Counts n d f m
    → Counts n d (f + 1) (record m { dispute_status_failed = m.dispute_status_failed + 1 })
failed-Counts n d f m c = record {
  seen = c.seen;
  bare = c.bare;
  unknown = c.unknown;
  sound = c.sound;
  disputed = c.disputed;
  unmatched = let e = c.unmatched in ground arith;
}

later-Counts : (n d f : ℕ) (m : RestoreSummary) → Counts n d f m → Counts n d (f + 1) m
later-Counts n d f m c = record {
  seen = c.seen;
  bare = c.bare;
  unknown = c.unknown;
  sound = c.sound;
  disputed = c.disputed;
  unmatched = let e = c.unmatched in ground arith;
}

zero_plus : (n : ℕ) → 0 + n ≡ n
zero_plus n = ground arith

module _ (store : Store) (get_user : store.S → Option UserRow)
    (upsert_user : UserRow → store.S → store.S) (secret_at : ℤ → String)
    (conv_secret : String → String → String) where
  open store use {S, get_order}

  order-Counts :
      (n d f : ℕ) (info : RestoredOrdersInfo) (s : S) (m : RestoreSummary)
      → Counts n d f m
      → Counts
          (n + 1)
          d
          f
          (restore_order store get_user upsert_user secret_at conv_secret info (s, m)).1
  unfolding restore_order
  order-Counts n d f info s m c = elim (Bool-cases (has_details (get_order info.order_id s))) [
    | inl e ↦ rw e (known-Counts n d f m c)
    | inr e ↦ rw e (stub-Counts n d f info.status m c)
  ]

  orders-Counts :
      (n d f : ℕ) (infos : List RestoredOrdersInfo) (acc : S × RestoreSummary)
      → Counts n d f acc.1
      → Counts
          (n + length infos)
          d
          f
          (restore_orders store get_user upsert_user secret_at conv_secret infos acc).1
  unfolding restore_orders
  orders-Counts n d f [] acc c = let e : n + 0 ≡ n = ground arith in rw e c
  orders-Counts n d f (info ∷ infos) (s, m) c =
      let e : n + length (info ∷ infos) ≡ (n + 1) + length infos = ground arith in
      rw e (
        orders-Counts (n + 1) d f infos
          (restore_order store get_user upsert_user secret_at conv_secret info (s, m))
          (order-Counts n d f info s m c))

  dispute-Counts :
      (n d f : ℕ) (dispute : RestoredDisputesInfo) (s : S) (m : RestoreSummary)
      → Counts n d f m
      → Counts n d
          (f + 1)
          (restore_dispute store get_user upsert_user secret_at conv_secret dispute (s, m)).1
  unfolding restore_dispute
  dispute-Counts n d f dispute s m c = elim (Bool-cases (is_some (get_order dispute.order_id s))) [
    | inl e ↦ rw e (later-Counts n d f m c)
    | inr e ↦ rw e (failed-Counts n d f m c)
  ]

  disputes-Counts :
      (n d f : ℕ) (disputes : List RestoredDisputesInfo) (acc : S × RestoreSummary)
      → Counts n d f acc.1
      → Counts n d
          (f + length disputes)
          (restore_disputes store get_user upsert_user secret_at conv_secret disputes acc).1
  unfolding restore_disputes
  disputes-Counts n d f [] acc c = let e : f + 0 ≡ f = ground arith in rw e c
  disputes-Counts n d f (x ∷ xs) (s, m) c =
      let e : f + length (x ∷ xs) ≡ (f + 1) + length xs = ground arith in
      rw e (
        disputes-Counts n d (f + 1) xs
          (restore_dispute store get_user upsert_user secret_at conv_secret x (s, m))
          (dispute-Counts n d f x s m c))

  -- The summary of a restore accounts for the whole reply: the orders restored and those already known are all its
  -- orders, those restored lack their details, those of an unknown role are among them, no order failed, the
  -- disputes are its disputes, and those that found no order are at most as many.
  pub rebuild-Counts :
      (identity : String) (now : ℤ) (info : RestoreSessionInfo) (last : LastTradeIndexInfo) (s : S)
      → Counts
          (length info.orders)
          (length info.disputes)
          (length info.disputes)
          (rebuild store get_user upsert_user secret_at conv_secret identity now info last s).1
  unfolding rebuild
  rebuild-Counts identity now info last s =
      let s1 =
        advance_index store get_user upsert_user secret_at conv_secret identity now
          (effective_last info last.last_used_index) s in
      let start : Counts 0 (length info.disputes) 0 (fresh_summary info) = record {
        seen = refl;
        bare = refl;
        unknown = ground arith;
        sound = refl;
        disputed = refl;
        unmatched = ground arith;
      } in
      let after =
        restore_orders store get_user upsert_user secret_at conv_secret info.orders
          (s1, fresh_summary info) in
      let counted =
        rw (zero_plus (length info.orders)) at
          (orders-Counts 0 (length info.disputes) 0 info.orders (s1, fresh_summary info) start) in
      rw (zero_plus (length info.disputes)) at
        (disputes-Counts (length info.orders) (length info.disputes) 0 info.disputes after counted)
