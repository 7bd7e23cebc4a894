-- ===== src/MostroInfo/Difficulty.antt =====
-- The proof of work that a message toward the instance carries.
use mostro_ts_client.Common.{
  true, false, ◌≡◌, ◌&&◌, refl, inl, inr, Option, none, some, arith, Bool-cases, or_else,
}
use mostro_ts_client.Common.Int.{ℤ, pos, ◌≤ℤ◌}
use mostro_ts_client.Action.{Action}
use mostro_ts_client.MostroInfo.{
  MostroInstanceInfo, clamp_pow_bits, nostr_pow_from_instance,
  effective_pow_first_contact_from_instance, transport_from_instance, is_direct,
  is_v2_first_contact_protocol_action, nostr_pow_for_protocol_dm,
}

clamp_bound : (bits : Option ℤ) → clamp_pow_bits bits ≤ℤ pos 255
clamp_bound none = ground arith
clamp_bound (some bits) = ground arith

module _ {Fee : Type 0} where
  base_bound : (info : Option (MostroInstanceInfo Fee)) → nostr_pow_from_instance info ≤ℤ pos 255
  unfolding nostr_pow_from_instance
  base_bound none = ground arith
  base_bound (some info) = clamp_bound info.pow

  contact_bound :
      (info : Option (MostroInstanceInfo Fee))
      → effective_pow_first_contact_from_instance info ≤ℤ pos 255
  unfolding effective_pow_first_contact_from_instance
  contact_bound none = ground arith
  contact_bound (some info) = clamp_bound (or_else info.pow_first_contact info.pow)

  -- The difficulty of a message never exceeds 255 bits and is never below the instance's own. A message that
  -- introduces a trade key over the direct transport also meets the difficulty for a first contact, and every
  -- other message has exactly the instance's own.
  pub nostr_pow_bounds :
      (info : Option (MostroInstanceInfo Fee)) (action : Action)
      → let bits = nostr_pow_for_protocol_dm info action in
        let first =
          is_direct (transport_from_instance info) && is_v2_first_contact_protocol_action action in
        (bits ≤ℤ pos 255)
        × (nostr_pow_from_instance info ≤ℤ bits)
        × (first ≡ true → effective_pow_first_contact_from_instance info ≤ℤ bits)
        × (first ≡ false → bits ≡ nostr_pow_from_instance info)
  unfolding nostr_pow_for_protocol_dm
  nostr_pow_bounds info action =
      let base = base_bound info in
      let contact = contact_bound info in
      elim (Bool-cases
        (is_direct (transport_from_instance info) && is_v2_first_contact_protocol_action action)) [
          | inl y ↦ rw y (ground arith, ground arith, λ _. ground arith, λ h. absurd (cc))
          | inr n ↦ rw n (base, ground arith, λ h. absurd (cc), λ _. refl)
        ]
