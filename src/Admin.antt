-- ===== src/Admin.antt =====
-- src/protocol/admin.ts: the messages of a solver and the replies to them. `hexToNpub` is an encoding
-- by a library and `crypto.randomUUID` draws an id: both are arguments.
pub mod Builders
use mostro_ts_client.Common.{
  String, Bool, true, false, not, ◌&&◌, Option, none, some, if◌then◌else◌, ◌==◌, ◌!=◌, or_default,
  Result, ok, err,
}
use mostro_ts_client.Common.Text.{append, starts_with}
use mostro_ts_client.Common.Int.{ℤ, int_eq}
use mostro_ts_client.Action.{Action, action_eq}
use mostro_ts_client.Message.{Payload, MessageKind, Message, new_dispute_message}
use mostro_ts_client.Fault.{Fault, null_request_id, mismatched_request_id, unexpected_action}
use mostro_ts_client.Flow.{verified}

pub record BondSlash : Type 0 where
  pub slash_seller : Bool
  pub slash_buyer : Bool

abbrev pub no_slash : BondSlash
no_slash = record { slash_seller = false; slash_buyer = false }

unfoldable pub bond_slash_to_payload : BondSlash → Option Payload
bond_slash_to_payload bond =
    if not bond.slash_seller && not bond.slash_buyer
    then none
    else some (
        Payload.bond_resolution
          (record { slash_seller = bond.slash_seller; slash_buyer = bond.slash_buyer }))

-- `bond ? bondSlashToPayload(bond) : null`
abbrev pub bond_payload : Option BondSlash → Option Payload
bond_payload none = none
bond_payload (some bond) = bond_slash_to_payload bond

unfoldable pub build_admin_message :
    String → Option ℤ → Action → Option Payload → Result Fault Message
build_admin_message id request_id action payload =
    verified action (new_dispute_message (some id) request_id none action payload)

unfoldable pub build_take_dispute_message : String → Result Fault Message
unfolding build_admin_message
build_take_dispute_message dispute_id =
    build_admin_message dispute_id none Action.admin_take_dispute none

unfoldable pub build_admin_settle_message : String → ℤ → Option BondSlash → Result Fault Message
unfolding build_admin_message
build_admin_settle_message order_id request_id bond =
    build_admin_message order_id (some request_id) Action.admin_settle (bond_payload bond)

unfoldable pub build_admin_cancel_message : String → ℤ → Option BondSlash → Result Fault Message
unfolding build_admin_message
build_admin_cancel_message order_id request_id bond =
    build_admin_message order_id (some request_id) Action.admin_cancel (bond_payload bond)

pub data Permission : Type 0 where
  read read_write : Permission

-- the text of an AddSolver message
unfoldable pub solver_text : (String → Option String) → String → Permission → String
solver_text hex_to_npub solver_pubkey permission =
    let normalized =
      if starts_with solver_pubkey "npub1"
      then solver_pubkey
      else or_default (hex_to_npub solver_pubkey) solver_pubkey in
    elim permission [ read ↦ append normalized ":read" | read_write ↦ normalized ]

unfoldable pub build_add_solver_message :
    (String → Option String) → String → String → ℤ → Permission → Result Fault Message
unfolding build_admin_message
build_add_solver_message hex_to_npub uuid solver_pubkey request_id permission =
    build_admin_message uuid (some request_id) Action.admin_add_solver
      (some (Payload.text_message (solver_text hex_to_npub solver_pubkey permission)))

pub data Finalized : Type 0 where
  confirmed already_cooperatively_canceled : Finalized

-- the two tests after a request id was found
finalized : Action → ℤ → Action → ℤ → Result Fault Finalized
finalized expected expected_id action request_id =
    if request_id != expected_id
    then err mismatched_request_id
    else if action == expected
    then ok confirmed
    else if action == Action.cooperative_cancel_accepted
    then ok already_cooperatively_canceled
    else err (unexpected_action action)

unfoldable pub handle_admin_finalize_response : MessageKind → ℤ → Action → Result Fault Finalized
unfolding finalized
handle_admin_finalize_response kind expected_id expected = reply kind.request_id
  where
    reply : Option ℤ → Result Fault Finalized
    reply none = err null_request_id
    reply (some request_id) = finalized expected expected_id kind.action request_id

unfoldable pub handle_take_dispute_response : MessageKind → Result Fault (Unit {0})
handle_take_dispute_response kind =
    if kind.action != Action.admin_took_dispute then err (unexpected_action kind.action) else ok tt
