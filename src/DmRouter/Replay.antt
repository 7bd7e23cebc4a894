-- ===== src/DmRouter/Replay.antt =====
-- The filter of src/protocol/dmRouter.ts, and `replayTradeDms`: the messages of the stored trades, read
-- again from the relays.
use mostro_ts_client.Common.{
  ℕ, String, Bool, true, false, ◌&&◌, Option, none, some, List, [], ◌∷◌, if◌then◌else◌, ◌==◌, ◌!=◌,
  string_eq, nat_eq, not, ◌||◌,
}
use mostro_ts_client.Common.Int.{ℤ, pos, ltb_ℤ, int_eq}
use mostro_ts_client.Common.Sort.{sort_by}
use mostro_ts_client.Message.{Message}
use mostro_ts_client.DmRouter.{Transport, gift_wrap, nip44_direct, transport_event_kind, NostrEvent}

pub record Filter : Type 0 where
  pub kind : ℕ
  pub author : String
  pub recipient : Option String
  pub since : Option ℤ

abbrev is_nip44 : Transport → Bool
is_nip44 nip44_direct = true
is_nip44 gift_wrap = false

unfoldable pub filter_protocol_dm_from_mostro : Transport → String → String → Filter
filter_protocol_dm_from_mostro transport mostro_pubkey trade_pubkey = record {
  kind = transport_event_kind transport;
  author = mostro_pubkey;
  recipient =
      if is_nip44 transport && mostro_pubkey == trade_pubkey then none else some trade_pubkey;
  since = none;
}

-- `if (since) { filter.since = since; }`
abbrev pub with_since : Option ℤ → Filter → Filter
with_since none f = f
with_since (some at) f = if at == pos 0 then f else record f { since = some at }

pub record ReplayedDm : Type 0 where
  pub order_id : String
  pub secret : String
  pub message : Message
  pub created_at : ℤ

abbrev pub older : ReplayedDm → ReplayedDm → Bool
older a b = ltb_ℤ a.created_at b.created_at

abbrev pub replayed : String → String → NostrEvent → Message → ReplayedDm
replayed order_id secret event message = record {
  order_id = order_id;
  secret = secret;
  message = message;
  created_at = event.created_at;
}

-- `results.push(…)` if the event was opened
abbrev pub pushed :
    String → String → NostrEvent → Option Message → List ReplayedDm → List ReplayedDm
pushed order_id secret event none rest = rest
pushed order_id secret event (some message) rest = replayed order_id secret event message ∷ rest

abbrev pub skipped : Transport → String → (NostrEvent → Bool) → NostrEvent → Bool
skipped transport mostro_pubkey verify_event_signature event =
    event.kind != transport_event_kind transport
    || not (verify_event_signature event)
    || event.pubkey != mostro_pubkey

module _ (transport : Transport) (mostro_pubkey : String)
    (verify_event_signature : NostrEvent → Bool)
    (try_unwrap : NostrEvent → String → Option Message) where
  unfoldable pub replay_events :
      String → String → List NostrEvent → List ReplayedDm → List ReplayedDm
  replay_events order_id secret [] rest = rest
  replay_events order_id secret (event ∷ events) rest =
      let more = replay_events order_id secret events rest in
      if skipped transport mostro_pubkey verify_event_signature event
      then more
      else pushed order_id secret event (try_unwrap event secret) more

  -- `query` is what the relays return for the filter of a trade's secret, and `trades` holds orders with
  -- their secrets
  unfoldable pub replay_trades :
      (String → List NostrEvent) → List (String × String) → List ReplayedDm
  unfolding replay_events
  replay_trades query [] = []
  replay_trades query ((order_id, secret) ∷ trades) =
      replay_events order_id secret (query secret) (replay_trades query trades)

  unfoldable pub replay_trade_dms :
      (Filter → List NostrEvent)
      → (String → String)
      → Option ℤ
      → List (String × String)
      → List ReplayedDm
  unfolding replay_trades
  replay_trade_dms relays pubkey_from_secret since trades = sort_by older (
      replay_trades
        (λ secret. relays (
          with_since since
            (filter_protocol_dm_from_mostro transport mostro_pubkey (pubkey_from_secret secret))))
        trades)
