-- ===== src/Restore.antt =====
-- src/protocol/restore.ts: the rebuild of the database from the daemon's account of this identity. The
-- exchange with the relays is its two replies. `secret_at` and `conv_secret` are the derivations of a
-- trade secret from the seed and of the chat secret with a solver.
pub mod Summary
pub mod Rebuilt
pub mod Rows
use mostro_ts_client.Common.{
  ℕ, ◌+◌, String, Bool, true, false, ◌||◌, not, Option, none, some, List, [], ◌∷◌, if◌then◌else◌,
  ◌==◌, ◌!=◌, string_eq, is_some, or_default, Result, ok, err, ◌>>=◌, ◌>>◌, throw_if,
}
use mathlib.Core.Option
use mostro_ts_client.Common.Int.{ℤ, pos, ltb_ℤ, max_ℤ}
use mostro_ts_client.Common.Lists.{length}
use mostro_ts_client.Action.{Action, action_eq}
use mostro_ts_client.CantDo.{CantDoReason}
use mostro_ts_client.Fault.{
  Fault, foreign_sender, restore_refused, no_restore_data, unexpected_action,
}
use mostro_ts_client.Message.{
  Payload, MessageKind, RestoreSessionInfo, RestoredOrdersInfo, RestoredDisputesInfo,
}
use mostro_ts_client.Store.{UserRow, OrderRow, SaveOrderInput, Store, kept}

pub record RestoreSummary : Type 0 where
  pub restored : ℕ
  pub already_known : ℕ
  pub missing_details : ℕ
  pub role_unknown : ℕ
  pub failed : ℕ
  pub disputes : ℕ
  pub dispute_status_failed : ℕ

pub record LastTradeIndexInfo : Type 0 where
  pub last_used_index : ℤ
  pub no_history : Bool

abbrev data_in : Option Payload → Result Fault RestoreSessionInfo
data_in (some (Payload.restore_data info)) = ok info
data_in _ = err no_restore_data

-- the restore data of a reply that is not a refusal
restore_payload : Action → Option Payload → Result Fault RestoreSessionInfo
restore_payload action (some (Payload.cant_do reason)) = err (restore_refused reason)
restore_payload action payload = do
  throw_if (action != Action.restore_session) (unexpected_action action)
  data_in payload

unfoldable pub restore_reply : String → String → MessageKind → Result Fault RestoreSessionInfo
unfolding restore_payload
restore_reply mostro_pubkey sender kind = do
  throw_if (sender != mostro_pubkey) (foreign_sender sender)
  restore_payload kind.action kind.payload

abbrev index_in : Action → Option Payload → LastTradeIndexInfo
index_in action (some (Payload.cant_do reason)) = record {
  last_used_index = pos 0;
  no_history = true;
}
index_in action (some (Payload.amount index)) = record {
  last_used_index = index;
  no_history = action != Action.last_trade_index;
}
index_in action payload = record {
  last_used_index = pos 0;
  no_history = action != Action.last_trade_index;
}

unfoldable pub fetch_last_trade_index : MessageKind → LastTradeIndexInfo
fetch_last_trade_index kind = index_in kind.action kind.payload

-- the largest index that is larger than the one before, over the orders and then the disputes
abbrev pub larger : ℤ → ℤ → ℤ
larger m index = if ltb_ℤ m index then index else m

unfoldable pub max_of_orders : ℤ → List RestoredOrdersInfo → ℤ
max_of_orders m [] = m
max_of_orders m (o ∷ os) = max_of_orders (larger m o.trade_index) os

unfoldable pub max_of_disputes : ℤ → List RestoredDisputesInfo → ℤ
max_of_disputes m [] = m
max_of_disputes m (d ∷ ds) = max_of_disputes (larger m d.trade_index) ds

unfoldable pub effective_last : RestoreSessionInfo → ℤ → ℤ
unfolding max_of_orders max_of_disputes
effective_last info last =
    max_ℤ (max_of_disputes (max_of_orders (pos 0) info.orders) info.disputes) last

abbrev pub fresh_summary : RestoreSessionInfo → RestoreSummary
fresh_summary info = record {
  restored = 0;
  already_known = 0;
  missing_details = 0;
  role_unknown = 0;
  failed = 0;
  disputes = length info.disputes;
  dispute_status_failed = 0;
}

-- `existing && existing.fiat_code`
abbrev pub has_details : Option OrderRow → Bool
has_details none = false
has_details (some row) = not (row.fiat_code == "")

abbrev pub is_made : String → Bool
is_made status = status == "pending" || status == "waiting-maker-bond"

-- the row of an order whose details are not known
abbrev pub stub : RestoredOrdersInfo → (secret : String) → SaveOrderInput
stub info secret = record {
  id = info.order_id;
  kind = none;
  status = some info.status;
  amount = pos 0;
  fiat_code = "";
  min_amount = none;
  max_amount = none;
  fiat_amount = pos 0;
  payment_method = "";
  premium = pos 0;
  trade_keys = secret;
  counterparty_pubkey = none;
  is_mine = is_made info.status;
  buyer_invoice = none;
  request_id = none;
  trade_index = info.trade_index;
  created_at = none;
  expires_at = none;
}

abbrev pub with_stub : String → RestoreSummary → RestoreSummary
with_stub status summary = record summary {
  restored = summary.restored + 1;
  missing_details = summary.missing_details + 1;
  role_unknown = if is_made status then summary.role_unknown else summary.role_unknown + 1;
}

module _ (store : Store) (get_user : store.S → Option UserRow)
    (upsert_user : UserRow → store.S → store.S) (secret_at : ℤ → String)
    (conv_secret : String → String → String) where
  open store use {
    S, get_order, save_order, update_order_status, update_dispute_id, update_solver_chat,
  }

  -- the index moves first, and only forward
  unfoldable pub advance_index : (identity : String) (now last : ℤ) → S → S
  advance_index identity now last s =
      let user = get_user s in
      let current =
        or_default (Option.map (λ u. or_default u.last_trade_index (pos 0)) user) (pos 0) in
      if ltb_ℤ current last
      then upsert_user
          (record {
            i0_pubkey = identity;
            last_trade_index = some last;
            created_at = or_default (Option.map (λ u. u.created_at) user) now;
          })
          s
      else s

  unfoldable pub restore_order : RestoredOrdersInfo → S × RestoreSummary → S × RestoreSummary
  restore_order info (s, summary) =
      if has_details (get_order info.order_id s)
      then (
        update_order_status info.order_id info.status s,
        record summary { already_known = summary.already_known + 1 },
      )
      else (
        (save_order (stub info (secret_at info.trade_index)) s).0,
        with_stub info.status summary,
      )

  unfoldable pub restore_orders : List RestoredOrdersInfo → S × RestoreSummary → S × RestoreSummary
  unfolding restore_order
  restore_orders [] acc = acc
  restore_orders (info ∷ infos) acc = restore_orders infos (restore_order info acc)

  -- `if (dispute.solver_pubkey)`
  unfoldable pub restore_solver : RestoredDisputesInfo → Option String → S → S
  restore_solver d none s = s
  restore_solver d (some pubkey) s =
      if pubkey == ""
      then s
      else update_solver_chat d.order_id pubkey (conv_secret (secret_at d.trade_index) pubkey) s

  unfoldable pub restore_dispute : RestoredDisputesInfo → S × RestoreSummary → S × RestoreSummary
  unfolding restore_solver
  restore_dispute d (s, summary) =
      if is_some (get_order d.order_id s)
      then (
        restore_solver d d.solver_pubkey (
            update_dispute_id d.order_id d.dispute_id (update_order_status d.order_id "dispute" s)),
        summary,
      )
      else (s, record summary { dispute_status_failed = summary.dispute_status_failed + 1 })

  unfoldable pub restore_disputes :
      List RestoredDisputesInfo → S × RestoreSummary → S × RestoreSummary
  unfolding restore_dispute
  restore_disputes [] acc = acc
  restore_disputes (d ∷ ds) acc = restore_disputes ds (restore_dispute d acc)

  -- `restoreSession` once both replies are there
  unfoldable pub rebuild :
      (identity : String) (now : ℤ)
      → RestoreSessionInfo
      → LastTradeIndexInfo
      → S
      → S × RestoreSummary
  unfolding advance_index restore_orders restore_disputes effective_last
  rebuild identity now info last s =
      let s1 = advance_index identity now (effective_last info last.last_used_index) s in
      restore_disputes info.disputes (restore_orders info.orders (s1, fresh_summary info))
