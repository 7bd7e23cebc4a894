-- ===== src/Tests/Clients.antt =====
-- Examples for the client.
use mostro_ts_client.Common.{
  String, ◌≡◌, refl, ◌≢◌, ◌⊎◌, ◌↔◌, Option, none, some, List, [], ◌∷◌, Result, ok, String-discrete,
  if◌then◌else◌, ◌==◌, string_eq,
}
use mathlib.Core.List.{Memᴰ}
use mostro_ts_client.Common.Int.{ℤ, pos}
use mostro_ts_client.Action.{Action}
use mostro_ts_client.Message.{Payload, Message}
use mostro_ts_client.Fault.{Fault}
use mostro_ts_client.Store.{ChatMessageRow}
use mostro_ts_client.Sqlite
use mostro_ts_client.Sqlite.Orders.{sqlite_store}
use mostro_ts_client.Sqlite.Users.{store_user}
use mostro_ts_client.DmRouter.{NostrEvent, Router}
use mostro_ts_client.Flow.{NewOrderInput}
use mostro_ts_client.UiStore.{Scope, order, dispute}
use mostro_ts_client.Client.{
  Client, Dm, trade_secret, require_trade_secret, counterparty, get_messages, peer_trade_keys,
  peer_of_history, peer_in,
}
use mostro_ts_client.Client.Exchange.{await_reply}
use mostro_ts_client.Client.Requests.{Keys, cancel_answers, cancel_order}
use mostro_ts_client.Client.Answers.{Answered, await_reply_iff}
use mostro_ts_client.Client.Cancel.{Ended, cancellation, cancel_order_iff}
use mostro_ts_client.Client.Chats.{said, opened, run, step, duplicate_inert}
use mostro_ts_client.Client.Peers.{Names, peer_trade_keys_sound}
use mostro_ts_client.Tests.{message_of, sample_db, sample_order}
use mostro_ts_client.Tests.Routing.{notice, waiting}
use mostro_ts_client.Tests.Interface.{said_by_peer}

abbrev db : (sqlite_store none).S
unfolding sqlite_store
db = sample_db

abbrev mine : String → String
mine secret = if secret == "secret" then "our key" else "no key"

abbrev conv : String → String → String
conv secret pubkey = secret

-- a message that names the counterpart
abbrev taken_by_peer : Message
taken_by_peer = message_of Action.buyer_took_order (
    some (
      Payload.order (record sample_order {
        buyer_trade_pubkey = some "our key";
        seller_trade_pubkey = some "peer";
      })))

abbrev client : Client (sqlite_store none).S
client = record {
  db = db;
  router = some waiting;
  trades = ("o1", "secret") ∷ [];
  message_history = ("o1", record { timestamp = pos 1; message = taken_by_peer } ∷ []) ∷ [];
  order_chat_history = [];
  dispute_chat_history = [];
  chat_subscribed = [];
  chat_seen = [];
}

abbrev refusal : Message
refusal = message_of Action.cant_do none

-- the daemon refuses everything
abbrev unwrap : String → NostrEvent → Result Fault (Option Message)
unwrap secret event = ok (some refusal)

abbrev network : Message → List NostrEvent
network m = notice ∷ []

abbrev reserve : ℤ → (sqlite_store none).S → (ℤ × Keys) × (sqlite_store none).S
reserve base s = ((pos 5, record { pubkey = "new key"; secret = "new secret" }), s)

await_reply_iff_example :
    (await_reply (unwrap "secret") cancel_answers (notice ∷ []) ≡ ok refusal.value)
    ↔ Answered (unwrap "secret") cancel_answers (notice ∷ []) refusal.value
await_reply_iff_example =
    await_reply_iff (unwrap "secret") cancel_answers (notice ∷ []) refusal.value

cancel_order_iff_example :
    (cancel_order
        (sqlite_store none)
        mine
        reserve
        (store_user none)
        unwrap
        network
        (pos 9)
        (pos 7)
        "me"
        "null"
        "o1"
        client
      ≡ ok tt)
    ↔ ((secret : String) × (require_trade_secret "o1" client ≡ ok secret)
        × ((r : Router) × (some waiting ≡ some r))
        × Ended (unwrap secret) (network (cancellation "o1" (pos 7))))
cancel_order_iff_example =
    cancel_order_iff (sqlite_store none) mine reserve (store_user none) unwrap network (pos 9)
      (pos 7) "me" "null" "o1" client

abbrev save : ChatMessageRow → (sqlite_store none).S → (sqlite_store none).S
save row s = s

abbrev no_rows : String → Scope → (sqlite_store none).S → List ChatMessageRow
no_rows id scope s = []

duplicate_inert_example :
    let c' = run save no_rows (said order "o1" (said_by_peer "hi") ∷ opened "o2" ∷ []) client in
    step save no_rows (said dispute "o2" (said_by_peer "hi again")) c' ≡ c'
unfolding String-discrete
duplicate_inert_example =
    duplicate_inert save no_rows order "o1" (said_by_peer "hi") (opened "o2" ∷ []) dispute "o2"
      (said_by_peer "hi again") client (λ e. cc) refl

peer_trade_keys_sound_example :
    (trade_secret "o1" client ≡ some "secret")
    × ((counterparty ((sqlite_store none).get_order "o1" db) ≡ some "peer")
        ⊎ (("peer" ≢ mine "secret")
            × ((dm : Dm) × Memᴰ dm (get_messages "o1" client) × Names "peer" dm.message)))
unfolding sqlite_store Sqlite.get_order peer_trade_keys String-discrete peer_of_history get_messages
    peer_in
peer_trade_keys_sound_example =
    peer_trade_keys_sound (sqlite_store none) mine conv conv "o1" "secret" "peer" client refl

-- the daemon answers with the order
abbrev accept : Action → String → NostrEvent → Result Fault (Option Message)
accept action secret event = ok (some (message_of action (some (Payload.order sample_order))))

abbrev wanted : NewOrderInput
wanted = record {
  kind = some "sell";
  fiat_code = none;
  amount = none;
  fiat_amount = pos 30;
  min_amount = none;
  max_amount = none;
  payment_method = "cash";
  premium = none;
  buyer_invoice = none;
  expiration_days = none;
}
