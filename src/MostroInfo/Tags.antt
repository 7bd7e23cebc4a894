-- ===== src/MostroInfo/Tags.antt =====
-- The tags of an announcement (`mostroInfoFromTags`). `parse_float_safe` stands for
-- `Number.parseFloat` with its check.
use mostro_ts_client.Common.{
  map, String, Bool, true, false, ◌||◌, ◌&&◌, not, Option, none, some, List, [], ◌∷◌, if◌then◌else◌,
  ◌==◌, string_eq, nat_eq, option_eq,
}
use mostro_ts_client.Common.Text.{trim, to_lower, split_commas}
use mostro_ts_client.Common.Lists.{keep}
use mostro_ts_client.Common.Int.{ℤ, pos, ◌-ℤ◌, leb_ℤ, int_eq}
use mostro_ts_client.Action.{action_eq}
use mostro_ts_client.OrderBook.Parsing.{parse_int_safe as parse_digits}
use mostro_ts_client.MostroInfo.{MostroInstanceInfo}

-- `splitCsv`
abbrev pub split_csv : String → List String
split_csv value = keep (λ s. not (s == "")) (map trim (split_commas value))

abbrev pub parse_bond_enabled : String → Option Bool
parse_bond_enabled value =
    let v = to_lower (trim value) in
    if v == "true" || v == "1" || v == "yes"
    then some true
    else if v == "false" || v == "0" || v == "no"
    then some false
    else none

-- digits with an optional sign, and a safe integer
abbrev is_safe : ℤ → Bool
is_safe n = leb_ℤ (pos 0 -ℤ pos 9007199254740991) n && leb_ℤ n (pos 9007199254740991)

unfoldable pub parse_int_safe : String → Option ℤ
parse_int_safe value = elim (parse_digits (trim value)) [
  | none ↦ none
  | some n ↦ if is_safe n then some n else none
]

abbrev empty_info : {Fee : Type 0} → MostroInstanceInfo Fee
empty_info = record {
  last_updated = none;
  mostro_version = none;
  mostro_commit_hash = none;
  max_order_amount = none;
  min_order_amount = none;
  expiration_hours = none;
  expiration_seconds = none;
  fiat_currencies_accepted = [];
  max_orders_per_response = none;
  fee = none;
  pow = none;
  pow_first_contact = none;
  protocol_version = none;
  bond_enabled = none;
  hold_invoice_expiration_window = none;
  hold_invoice_cltv_delta = none;
  invoice_expiration_window = none;
  lnd_version = none;
  lnd_node_pubkey = none;
  lnd_commit_hash = none;
  lnd_node_alias = none;
  lnd_chains = [];
  lnd_networks = [];
  lnd_uris = [];
}

-- `tag[1] ?? ""`
abbrev value_of : List String → String
value_of [] = ""
value_of (v ∷ vs) = v

module _ {Fee : Type 0} (parse_float_safe : String → Option Fee) where
  apply_info_tag : MostroInstanceInfo Fee → List String → MostroInstanceInfo Fee
  apply_info_tag info [] = info
  apply_info_tag info (key ∷ values) =
      let v = value_of values in
      if key == "mostro_version"
      then record info { mostro_version = some v }
      else if key == "mostro_commit_hash"
      then record info { mostro_commit_hash = some v }
      else if key == "max_order_amount"
      then record info { max_order_amount = parse_int_safe v }
      else if key == "min_order_amount"
      then record info { min_order_amount = parse_int_safe v }
      else if key == "expiration_hours"
      then record info { expiration_hours = parse_int_safe v }
      else if key == "expiration_seconds"
      then record info { expiration_seconds = parse_int_safe v }
      else if key == "fiat_currencies_accepted"
      then record info { fiat_currencies_accepted = split_csv v }
      else if key == "max_orders_per_response"
      then record info { max_orders_per_response = parse_int_safe v }
      else if key == "fee"
      then record info { fee = parse_float_safe v }
      else if key == "pow"
      then record info { pow = parse_int_safe v }
      else if key == "pow_first_contact"
      then record info { pow_first_contact = parse_int_safe v }
      else if key == "protocol_version"
      then record info { protocol_version = parse_int_safe v }
      else if key == "bond_enabled"
      then record info { bond_enabled = parse_bond_enabled v }
      else if key == "hold_invoice_expiration_window"
      then record info { hold_invoice_expiration_window = parse_int_safe v }
      else if key == "hold_invoice_cltv_delta"
      then record info { hold_invoice_cltv_delta = parse_int_safe v }
      else if key == "invoice_expiration_window"
      then record info { invoice_expiration_window = parse_int_safe v }
      else if key == "lnd_version"
      then record info { lnd_version = some v }
      else if key == "lnd_node_pubkey"
      then record info { lnd_node_pubkey = some v }
      else if key == "lnd_commit_hash"
      then record info { lnd_commit_hash = some v }
      else if key == "lnd_node_alias"
      then record info { lnd_node_alias = some v }
      else if key == "lnd_chains"
      then record info { lnd_chains = split_csv v }
      else if key == "lnd_networks"
      then record info { lnd_networks = split_csv v }
      else if key == "lnd_uris"
      then record info { lnd_uris = split_csv v }
      else info

  apply_info_tags : MostroInstanceInfo Fee → List (List String) → MostroInstanceInfo Fee
  apply_info_tags info [] = info
  apply_info_tags info (tag ∷ tags) = apply_info_tags (apply_info_tag info tag) tags

  unfoldable pub mostro_info_from_tags : List (List String) → MostroInstanceInfo Fee
  unfolding apply_info_tags apply_info_tag parse_int_safe
  mostro_info_from_tags tags = apply_info_tags empty_info tags
