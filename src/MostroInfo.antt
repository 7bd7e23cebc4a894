-- ===== src/MostroInfo.antt =====
-- src/protocol/mostroInfo.ts: the instance's announcement and the parameters read from it. A fee is
-- a number of the type `Fee`.
pub mod Tags
pub mod Selection
pub mod Difficulty
use mostro_ts_client.Common.{
  ℕ, map, String, Bool, true, false, ◌||◌, ◌&&◌, not, Option, none, some, List, [], ◌∷◌,
  if◌then◌else◌, ◌==◌, ◌!=◌, string_eq, nat_eq, option_eq, or_else, or_default,
}
use Prim.Native.Char.{code}
use mathlib.Core.Option
use mostro_ts_client.Common.Text.{trim, to_lower, split_commas}
use mostro_ts_client.Common.Lists.{keep, find_first}
use mostro_ts_client.Common.Sort.{sort_by}
use mostro_ts_client.Common.Int.{ℤ, pos, negsuc, ◌-ℤ◌, ltb_ℤ, leb_ℤ, min_ℤ, max_ℤ, int_eq}
use mostro_ts_client.Action.{Action, action_eq}
use mostro_ts_client.OrderBook.Parsing.{parse_int_safe as parse_digits}
use mostro_ts_client.DmRouter.{Transport, gift_wrap, nip44_direct}

pub record MostroInstanceInfo (Fee : Type 0) : Type 0 where
  pub last_updated : Option ℤ
  pub mostro_version : Option String
  pub mostro_commit_hash : Option String
  pub max_order_amount : Option ℤ
  pub min_order_amount : Option ℤ
  pub expiration_hours : Option ℤ
  pub expiration_seconds : Option ℤ
  pub fiat_currencies_accepted : List String
  pub max_orders_per_response : Option ℤ
  pub fee : Option Fee
  pub pow : Option ℤ
  pub pow_first_contact : Option ℤ
  pub protocol_version : Option ℤ
  pub bond_enabled : Option Bool
  pub hold_invoice_expiration_window : Option ℤ
  pub hold_invoice_cltv_delta : Option ℤ
  pub invoice_expiration_window : Option ℤ
  pub lnd_version : Option String
  pub lnd_node_pubkey : Option String
  pub lnd_commit_hash : Option String
  pub lnd_node_alias : Option String
  pub lnd_chains : List String
  pub lnd_networks : List String
  pub lnd_uris : List String

abbrev pub clamp_pow_bits : Option ℤ → ℤ
clamp_pow_bits none = pos 0
clamp_pow_bits (some bits) = min_ℤ bits (pos 255)

module _ {Fee : Type 0} where
  -- older than seven days, or without a date
  unfoldable pub is_instance_info_stale : (now : ℤ) → MostroInstanceInfo Fee → Bool
  is_instance_info_stale now info = elim info.last_updated [
    | none ↦ true
    | some last ↦ ltb_ℤ (pos 604800) (now -ℤ last)
  ]

  unfoldable pub nostr_pow_from_instance : Option (MostroInstanceInfo Fee) → ℤ
  nostr_pow_from_instance none = pos 0
  nostr_pow_from_instance (some info) = clamp_pow_bits info.pow

  unfoldable pub effective_pow_first_contact_from_instance : Option (MostroInstanceInfo Fee) → ℤ
  effective_pow_first_contact_from_instance none = pos 0
  effective_pow_first_contact_from_instance (some info) =
      clamp_pow_bits (or_else info.pow_first_contact info.pow)

  unfoldable pub transport_from_instance : Option (MostroInstanceInfo Fee) → Transport
  transport_from_instance none = gift_wrap
  transport_from_instance (some info) =
      if info.protocol_version == some (pos 2) then nip44_direct else gift_wrap

  unfoldable pub instance_bonds_enabled : Option (MostroInstanceInfo Fee) → Bool
  instance_bonds_enabled none = false
  instance_bonds_enabled (some info) = or_default info.bond_enabled false

abbrev pub is_direct : Transport → Bool
is_direct gift_wrap = false
is_direct nip44_direct = true

unfoldable pub is_v2_first_contact_protocol_action : Action → Bool
is_v2_first_contact_protocol_action action =
    action == Action.new_order || action == Action.take_buy || action == Action.take_sell

unfoldable pub nostr_pow_for_protocol_dm :
    {Fee : Type 0} → Option (MostroInstanceInfo Fee) → Action → ℤ
unfolding nostr_pow_from_instance transport_from_instance is_v2_first_contact_protocol_action
    effective_pow_first_contact_from_instance
nostr_pow_for_protocol_dm instance_info action =
    let base = nostr_pow_from_instance instance_info in
    if is_direct (transport_from_instance instance_info)
      && is_v2_first_contact_protocol_action action
    then max_ℤ base (effective_pow_first_contact_from_instance instance_info)
    else base

pub record InfoEvent : Type 0 where
  pub kind : ℕ
  pub pubkey : String
  pub tags : List (List String)
  pub created_at : ℤ

-- `t[0]` and `t?.[1]`
abbrev first_text : List String → Option String
first_text [] = none
first_text (t ∷ ts) = some t

abbrev second_text : List String → Option String
second_text (t ∷ u ∷ us) = some u
second_text _ = none

abbrev tag_value : Option (List String) → Option String
tag_value none = none
tag_value (some tag) = second_text tag

unfoldable pub instance_info_event_is_authentic : InfoEvent → String → Bool
instance_info_event_is_authentic event mostro_pubkey =
    if event.kind != 38385
    then false
    else if event.pubkey != mostro_pubkey
    then false
    else tag_value (find_first (λ t. first_text t == some "d") event.tags) == some mostro_pubkey

abbrev pub newer_event : InfoEvent → InfoEvent → Bool
newer_event x y = ltb_ℤ y.created_at x.created_at

abbrev pub first_event : List InfoEvent → Option InfoEvent
first_event [] = none
first_event (e ∷ es) = some e

unfoldable pub select_authentic_instance_info_event : List InfoEvent → String → Option InfoEvent
unfolding instance_info_event_is_authentic sort_by
select_authentic_instance_info_event events mostro_pubkey =
    first_event
      (sort_by newer_event (keep (λ e. instance_info_event_is_authentic e mostro_pubkey) events))
