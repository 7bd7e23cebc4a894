-- ===== src/Invoice/Expiry.antt =====
-- The expiry of a bolt11 invoice (src/protocol/invoice.ts). The loop over the tagged fields takes fuel,
-- and an outer `none` means that it ran out.
use mostro_ts_client.Common.{
  ℕ, zero, suc, ◌+◌, ◌*◌, ◌^◌, ◌<◌, ◌≤◌, String, Bool, ◌||◌, ◌≡◌, refl, ◌⊎◌, inl, inr, Option, none,
  some, List, [], ◌∷◌, if◌then◌else◌, ◌==◌, ltb, nat_eq, arith, Option-cases, or_default,
  Bool-cases,
}
use mostro_ts_client.Common.Text.{utf16}
use mostro_ts_client.Common.Lists.{length}
use mostro_ts_client.Common.Int.{ℤ, pos, negsuc, ◌+ℤ◌, ◌*ℤ◌, ltb_ℤ, pos_part, int_eq}
use mostro_ts_client.Invoice.Bolt11.{
  Hrp, bolt11_hrp, normal_text, bech32_index, index_from, read_base32, bolt11_timestamp,
}

abbrev pub drop : ℕ → List ℕ → List ℕ
drop zero s = s
drop (suc n) [] = []
drop (suc n) (c ∷ s) = drop n s

-- the index as the source has it, -1 for a unit out of the charset
abbrev pub signed_index : ℕ → ℤ
signed_index c = elim (bech32_index c) [ none ↦ negsuc 0 | some i ↦ pos i ]

-- one round of the loop: the result, or the text at the next `pos`
pub data Round : Type 0 where
  finished : Option ℕ → Round
  next : List ℕ → Round

-- a field of a given tag and length, and the text after its three units
field_round : ℤ → ℤ → List ℕ → Round
field_round tag len s =
    if ltb_ℤ tag (pos 0) || ltb_ℤ len (pos 0)
    then finished none
    else if ltb (length s) (pos_part len + 104)
    then finished none
    else if tag == signed_index 120
    then finished (read_base32 (pos_part len) s 0)
    else next (drop (pos_part len) s)

-- `pos + 3 <= end`, where 104 units at the end of the data are the signature
unfoldable pub expiry_round : List ℕ → Round
unfolding field_round
expiry_round (t ∷ a ∷ b ∷ s) =
    if ltb (length s) 104
    then finished none
    else field_round (signed_index t) (signed_index a *ℤ pos 32 +ℤ signed_index b) s
expiry_round _ = finished none

abbrev go : (List ℕ → Option (Option ℕ)) → Round → Option (Option ℕ)
go again (finished r) = some r
go again (next t) = again t

unfoldable pub expiry_loop : ℕ → List ℕ → Option (Option ℕ)
expiry_loop zero s = none
expiry_loop (suc fuel) s = go (expiry_loop fuel) (expiry_round s)

-- the loop starts after the timestamp
fields_of_hrp : Option Hrp → Option (Option ℕ)
fields_of_hrp none = some none
fields_of_hrp (some h) = let fields = drop 7 h.rest in expiry_loop (suc (length fields)) fields

unfoldable pub bolt11_expiry_seconds : String → Option (Option ℕ)
unfolding fields_of_hrp bolt11_hrp expiry_loop
bolt11_expiry_seconds payment_request = fields_of_hrp (bolt11_hrp (normal_text payment_request))

since : Option ℕ → Option (Option ℕ) → ℕ → Option (Option Bool)
since none seconds now = some none
since (some ts) none now = none
since (some ts) (some e) now = some (some (ltb (ts + or_default e 3600) now))

-- `now > ts + (expiry ?? 3600)`
unfoldable pub invoice_expired : String → ℕ → Option (Option Bool)
unfolding since
invoice_expired payment_request now =
    since (bolt11_timestamp payment_request) (bolt11_expiry_seconds payment_request) now

length-drop : (n : ℕ) (s : List ℕ) → length (drop n s) ≤ length s
length-drop zero s = omega arith
length-drop (suc n) [] = omega arith
length-drop (suc n) (c ∷ s) = omega (arith, length-drop n s)

-- a round that goes on has passed three units at least
field_shrinks : (tag len : ℤ) (s t : List ℕ) → field_round tag len s ≡ next t → length t ≤ length s
unfolding field_round
field_shrinks tag len s t h = ground (arith, length-drop (pos_part len) s)

round_shrinks : (s t : List ℕ) → expiry_round s ≡ next t → length t < length s
unfolding expiry_round
round_shrinks (x ∷ a ∷ b ∷ s) t h = elim (Bool-cases (ltb (length s) 104)) [
  | inl e ↦ let h' = rw e at h in cc
  | inr e ↦
      let h' = rw e at h in
      omega
        (arith, field_shrinks (signed_index x) (signed_index a *ℤ pos 32 +ℤ signed_index b) s t h')
]
round_shrinks [] t h = cc
round_shrinks (x ∷ []) t h = cc
round_shrinks (x ∷ a ∷ []) t h = cc

Round-cases : (r : Round) → ((o : Option ℕ) × (r ≡ finished o)) ⊎ ((t : List ℕ) × (r ≡ next t))
Round-cases (finished o) = inl (o, refl)
Round-cases (next t) = inr (t, refl)

-- the loop ends within as many rounds as there are units
expiry_loop_ends :
    (fuel : ℕ) (s : List ℕ) → length s < fuel → (r : Option ℕ) × (expiry_loop fuel s ≡ some r)
unfolding expiry_loop
expiry_loop_ends zero s h = absurd (omega arith)
expiry_loop_ends (suc fuel) s h = elim (Round-cases (expiry_round s)) [
  | inl (o, e) ↦ (o, rw e)
  | inr (t, e) ↦ rw e (expiry_loop_ends fuel t (omega (arith, round_shrinks s t e)))
]

hrp_total : (h : Option Hrp) → (r : Option ℕ) × (fields_of_hrp h ≡ some r)
unfolding fields_of_hrp
hrp_total none = (none, refl)
hrp_total (some h) = expiry_loop_ends _ (drop 7 h.rest) (omega arith)

-- The loop over the fields of an invoice ends for every text, so that the expiry is always decided:
-- an invoice without a readable timestamp gives null; any other is expired exactly when the clock is
-- past its timestamp by more than its expiry field, or by more than 3,600 seconds where no such
-- field is readable.
pub invoice_expired_total :
    (text : String) (now : ℕ)
    → (r : Option ℕ) × (bolt11_expiry_seconds text ≡ some r)
      × (bolt11_timestamp text ≡ none → invoice_expired text now ≡ some none)
      × ((ts : ℕ)
          → bolt11_timestamp text ≡ some ts
          → invoice_expired text now ≡ some (some (ltb (ts + or_default r 3600) now)))
unfolding bolt11_expiry_seconds invoice_expired
invoice_expired_total text now =
    let h = hrp_total (bolt11_hrp (normal_text text)) in (h.0, h.1, λ e. rw e, λ ts e. rw (e, h.1))

index_bound : (ds : List ℕ) (i c v : ℕ) → index_from i ds c ≡ some v → v < i + length ds
unfolding index_from
index_bound [] i c v h = cc
index_bound (d ∷ ds) i c v h = ground (arith, index_bound ds (i + 1) c v)

digit_bound : (c v : ℕ) → bech32_index c ≡ some v → v < 32
unfolding bech32_index
digit_bound c v h = index_bound (utf16 "qpzry9x8gf2tvdw0s3jn54khce6mua7l") 0 c v h

-- what a bound on the accumulator becomes in n rounds
abbrev grown : ℕ → ℕ → ℕ
grown zero b = b
grown (suc n) b = grown n (b * 32)

base32_bound :
    (n : ℕ) (s : List ℕ) (acc b r : ℕ) → acc < b → read_base32 n s acc ≡ some r → r < grown n b
unfolding read_base32
base32_bound zero s acc b r h e = let e' : acc ≡ r = cc in omega arith
base32_bound (suc n) [] acc b r h e = cc
base32_bound (suc n) (c ∷ s) acc b r h e = elim (Option-cases (bech32_index c)) [
  | inl k ↦ let e' = rw k at e in cc
  | inr (v, k) ↦
      let e' = rw k at e in
      base32_bound n s (acc * 32 + v) (b * 32) r (omega (arith, digit_bound c v k)) e'
]

-- A timestamp read from an invoice is below 2 to the 35th, whatever the text is.
pub bolt11_timestamp_bound :
    (text : String) (ts : ℕ) → bolt11_timestamp text ≡ some ts → ts < 2 ^ 35
unfolding bolt11_timestamp
bolt11_timestamp_bound text ts e = elim (Option-cases (bolt11_hrp (normal_text text))) [
  | inl k ↦ let e' = rw k at e in cc
  | inr (h, k) ↦ elim (Bool-cases (ltb (length h.rest) 7)) [
    | inl l ↦ let e' = rw (k, l) at e in cc
    | inr l ↦ let e' = rw (k, l) at e in base32_bound 7 h.rest 0 1 ts (omega arith) e'
  ]
]
