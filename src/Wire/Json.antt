-- ===== src/Wire/Json.antt =====
-- The values that JSON.stringify writes and JSON.parse reads back as they are: no undefined and no
-- infinite number. Every message that src/protocol/wire.ts writes is such a value.
use mostro_ts_client.Common.{String, Option, none, some, List, [], ◌∷◌}
use mostro_ts_client.Common.Int.{ℤ}
use mostro_ts_client.Order.{SmallOrder}
use mostro_ts_client.Kind.{kind_to_string}
use mostro_ts_client.Status.{status_to_string}
use mostro_ts_client.CantDo.{cant_do_reason_to_string}
use mostro_ts_client.Message.{UserInfo, SolverDisputeInfo, RestoredDisputesInfo, Payload, Message}
use mostro_ts_client.Wire.{
  Value, undefined, null, boolean, number, string, array, object, infinite, Items, nil, cons,
  Fields, end, field, int, nullable, optional, items,
}
use mostro_ts_client.Wire.Write.{
  order_fields, small_order_to_json, user_info_to_json, with_reputation, peer_to_json,
  solver_dispute_info_to_json, initiator_to_string, restored_order_to_json,
  restored_dispute_to_json, restore_session_info_to_json, bond_payout_request_to_json,
  cashu_lock_proof_to_json, cashu_proof_signature_to_json, payment_failed_to_json,
  bond_resolution_to_json, payload_to_json, kind_fields, message_kind_to_json, message_to_json,
}

unfoldable mutual
  pub IsJson : Value → Type 0
  IsJson undefined = ⊥
  IsJson null = Unit
  IsJson (boolean b) = Unit
  IsJson (number infinite) = ⊥
  IsJson (number n) = Unit
  IsJson (string s) = Unit
  IsJson (array xs) = AllJson xs
  IsJson (object fs) = FieldsJson fs

  pub AllJson : Items → Type 0
  AllJson nil = Unit
  AllJson (cons v vs) = IsJson v × AllJson vs

  pub FieldsJson : Fields → Type 0
  FieldsJson end = Unit
  FieldsJson (field k v fs) = IsJson v × FieldsJson fs

infixr 20 ◌⋆◌
abbrev ◌⋆◌ : {A B : Type 0} → A → B → A × B
a ⋆ b = (a, b)

optional-Json :
    (k : String) (o : Option String) (fs : Fields) → FieldsJson fs → FieldsJson (optional k o fs)
unfolding IsJson optional
optional-Json k none fs h = h
optional-Json k (some s) fs h = (tt, h)

nullable-Json :
    {A : Type 0} (write : A → Value)
    → ((a : A) → IsJson (write a))
    → (o : Option A) → IsJson (nullable write o)
unfolding IsJson
nullable-Json write h none = tt
nullable-Json write h (some a) = h a

maybe_text :
    {A : Type 0} (text : A → String) (o : Option A) → IsJson (nullable (λ a. string (text a)) o)
unfolding IsJson
maybe_text text none = tt
maybe_text text (some a) = tt

maybe_int : (o : Option ℤ) → IsJson (nullable int o)
unfolding IsJson
maybe_int none = tt
maybe_int (some n) = tt

items-Json :
    {A : Type 0} (write : A → Value)
    → ((a : A) → IsJson (write a))
    → (xs : List A) → AllJson (items write xs)
unfolding IsJson items
items-Json write h [] = tt
items-Json write h (x ∷ xs) = (h x, items-Json write h xs)

order-Json : (o : SmallOrder) → IsJson (small_order_to_json o)
unfolding IsJson small_order_to_json order_fields
order-Json o = optional-Json "id" o.id _ (
    maybe_text kind_to_string o.kind
    ⋆ maybe_text status_to_string o.status
    ⋆ tt
    ⋆ tt
    ⋆ maybe_int o.min_amount
    ⋆ maybe_int o.max_amount
    ⋆ tt
    ⋆ tt
    ⋆ tt
    ⋆ optional-Json "buyer_trade_pubkey" o.buyer_trade_pubkey _ (
        optional-Json "seller_trade_pubkey" o.seller_trade_pubkey _ (
          optional-Json "buyer_invoice" o.buyer_invoice _
            (maybe_int o.created_at ⋆ maybe_int o.expires_at ⋆ tt))))

user-Json : (i : UserInfo) → IsJson (user_info_to_json i)
unfolding IsJson user_info_to_json
user-Json i = (tt, (tt, (tt, tt)))

reputation-Json : (r : Option UserInfo) → FieldsJson (with_reputation r end)
unfolding IsJson
reputation-Json none = tt
reputation-Json (some i) = (user-Json i, tt)

dispute-Json : (i : SolverDisputeInfo) → IsJson (solver_dispute_info_to_json i)
unfolding IsJson solver_dispute_info_to_json
dispute-Json i =
    let text = maybe_text (λ (s : String). s) in
    let user = nullable-Json user_info_to_json user-Json in
    tt
    ⋆ tt
    ⋆ tt
    ⋆ text i.hash
    ⋆ text i.preimage
    ⋆ tt
    ⋆ tt
    ⋆ text i.buyer_pubkey
    ⋆ text i.seller_pubkey
    ⋆ tt
    ⋆ tt
    ⋆ user i.initiator_info
    ⋆ user i.counterpart_info
    ⋆ tt
    ⋆ tt
    ⋆ tt
    ⋆ tt
    ⋆ tt
    ⋆ tt
    ⋆ text i.buyer_invoice
    ⋆ tt
    ⋆ tt
    ⋆ tt
    ⋆ tt

restored-Json : (d : RestoredDisputesInfo) → IsJson (restored_dispute_to_json d)
unfolding IsJson restored_dispute_to_json
restored-Json d =
    tt
    ⋆ tt
    ⋆ tt
    ⋆ tt
    ⋆ maybe_text initiator_to_string d.initiator
    ⋆ maybe_text (λ (s : String). s) d.solver_pubkey
    ⋆ tt

payload-Json : (p : Payload) → IsJson (payload_to_json p)
unfolding IsJson payload_to_json peer_to_json payment_failed_to_json restored_order_to_json
    restore_session_info_to_json bond_resolution_to_json bond_payout_request_to_json
    cashu_lock_proof_to_json cashu_proof_signature_to_json
payload-Json (Payload.order o) = (order-Json o, tt)
payload-Json (Payload.payment_request o invoice sats) =
    ((nullable-Json small_order_to_json order-Json o, (tt, (maybe_int sats, tt))), tt)
payload-Json (Payload.text_message s) = (tt, tt)
payload-Json (Payload.peer p) = (tt ⋆ reputation-Json p.reputation, tt)
payload-Json (Payload.rating_user n) = (tt, tt)
payload-Json (Payload.amount n) = (tt, tt)
payload-Json (Payload.dispute id info) =
    ((tt, (nullable-Json solver_dispute_info_to_json dispute-Json info, tt)), tt)
payload-Json (Payload.cant_do reason) = (maybe_text cant_do_reason_to_string reason, tt)
payload-Json (Payload.next_trade key index) = ((tt, (tt, tt)), tt)
payload-Json (Payload.payment_failed i) = (tt ⋆ tt ⋆ tt, tt)
payload-Json (Payload.restore_data info) = (
  (items-Json restored_order_to_json (λ o. tt ⋆ tt ⋆ tt ⋆ tt) info.orders
      ⋆ items-Json restored_dispute_to_json restored-Json info.disputes
      ⋆ tt),
  tt,
)
payload-Json (Payload.ids texts) = (items-Json string (λ s. tt) texts, tt)
payload-Json (Payload.orders os) = (items-Json small_order_to_json order-Json os, tt)
payload-Json (Payload.bond_resolution b) = (tt ⋆ tt ⋆ tt, tt)
payload-Json (Payload.bond_payout_request r) = (order-Json r.order ⋆ tt ⋆ tt, tt)
payload-Json (Payload.cashu_lock_proof p) =
    (tt ⋆ tt ⋆ tt ⋆ tt ⋆ tt ⋆ optional-Json "fee_token" p.fee_token end tt, tt)
payload-Json (Payload.cashu_signatures ss) =
    (items-Json cashu_proof_signature_to_json (λ s. tt ⋆ tt ⋆ tt) ss, tt)

pub message-IsJson : (m : Message) → IsJson (message_to_json m)
unfolding IsJson message_to_json message_kind_to_json kind_fields
message-IsJson m =
    let k = m.value in
    (tt
      ⋆ maybe_int k.request_id
      ⋆ maybe_int k.trade_index
      ⋆ optional-Json "id" k.id _ (tt ⋆ nullable-Json payload_to_json payload-Json k.payload ⋆ tt))
    ⋆ tt
