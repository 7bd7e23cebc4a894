-- ===== src/Tests/Instance.antt =====
-- Examples for the announcements of an instance.
use mostro_ts_client.Common.{
  String, true, false, ◌≡◌, refl, ◌&&◌, Option, none, some, List, [], ◌∷◌, String-discrete,
  ℕ_discrete, Option-discrete,
}
use mathlib.Core.List.{Memᴰ}
use mostro_ts_client.Common.Lists.{All}
use mostro_ts_client.Common.Int.{ℤ, pos, ◌≤ℤ◌}
use mostro_ts_client.Common.Text.{trim, to_lower, split_commas}
use mostro_ts_client.Action.{Action}
use mostro_ts_client.MostroInfo.{
  MostroInstanceInfo, InfoEvent, instance_info_event_is_authentic,
  select_authentic_instance_info_event, nostr_pow_from_instance, nostr_pow_for_protocol_dm,
  transport_from_instance, is_direct, is_v2_first_contact_protocol_action,
  effective_pow_first_contact_from_instance,
}
use mostro_ts_client.MostroInfo.Tags.{mostro_info_from_tags}
use mostro_ts_client.MostroInfo.Selection.{select_newest_authentic}
use mostro_ts_client.MostroInfo.Difficulty.{nostr_pow_bounds}

abbrev announced_at : ℤ → InfoEvent
announced_at at = record {
  kind = 38385;
  pubkey = "mostro";
  tags = ("d" ∷ "mostro" ∷ []) ∷ [];
  created_at = at;
}

abbrev announcements : List InfoEvent
announcements = announced_at (pos 3) ∷ announced_at (pos 8) ∷ []

select_newest_authentic_example :
    ((e : InfoEvent)
      → select_authentic_instance_info_event announcements "mostro" ≡ some e
      → Memᴰ e announcements
        × (instance_info_event_is_authentic e "mostro" ≡ true)
        × All
            (λ e'.
              instance_info_event_is_authentic e' "mostro" ≡ true → e'.created_at ≤ℤ e.created_at)
            announcements)
    × (select_authentic_instance_info_event announcements "mostro" ≡ none
        → All (λ e'. ¬ (instance_info_event_is_authentic e' "mostro" ≡ true)) announcements)
select_newest_authentic_example = select_newest_authentic "mostro" announcements

select_test :
    select_authentic_instance_info_event announcements "mostro" ≡ some (announced_at (pos 8))
unfolding select_authentic_instance_info_event instance_info_event_is_authentic String-discrete
    ℕ_discrete Option-discrete
select_test = refl

abbrev no_float : String → Option ℤ
no_float value = none

announcement : MostroInstanceInfo ℤ
unfolding mostro_info_from_tags String-discrete trim to_lower split_commas
announcement =
    mostro_info_from_tags no_float (
      ("pow" ∷ "8" ∷ []) ∷ ("pow_first_contact" ∷ "20" ∷ []) ∷ ("protocol_version" ∷ "2" ∷ []) ∷ [])

nostr_pow_bounds_example :
    let bits = nostr_pow_for_protocol_dm (some announcement) Action.new_order in
    let first =
      is_direct (transport_from_instance (some announcement))
      && is_v2_first_contact_protocol_action Action.new_order in
    (bits ≤ℤ pos 255)
    × (nostr_pow_from_instance (some announcement) ≤ℤ bits)
    × (first ≡ true → effective_pow_first_contact_from_instance (some announcement) ≤ℤ bits)
    × (first ≡ false → bits ≡ nostr_pow_from_instance (some announcement))
nostr_pow_bounds_example = nostr_pow_bounds (some announcement) Action.new_order
