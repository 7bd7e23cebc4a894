-- ===== src/Client/Routing.antt =====
-- What `trackOrder` leaves in the router (src/protocol/client.ts, dmRouter.ts).
use mostro_ts_client.Common.{
  String, true, ◌≡◌, refl, ◌⊎◌, inl, inr, Option, some, List, [], ◌∷◌, ◌++◌, ◌==◌, string_eq,
  Bool-cases,
}
use mathlib.Core.List.{Memᴰ}
use mostro_ts_client.Common.Lists.{includes}
use mostro_ts_client.DmRouter.{
  Tracked, Router, set_tracked, tracked_secrets, subscribe_pubkey, ensure_subscription,
}
use mostro_ts_client.Client.{track_order}

-- the order's messages are routed by its key, if no other order had been subscribed with that key
pub record Routed (id secret : String) (old new : Option Router) : Type 0 where
  pub before : Router
  pub after : Router
  pub running : old ≡ some before
  pub kept : new ≡ some after
  pub tracked :
      (includes before.subscribed_secrets secret ≡ true)
      ⊎ Memᴰ
          (record { order_id = id; secret = secret })
          (tracked_secrets after.order_by_subscription)

tracked-set :
    (key : String) (t : Tracked) (ts : List (String × Tracked))
    → Memᴰ t (tracked_secrets (set_tracked key t ts))
tracked-set key t [] = Memᴰ.head refl
tracked-set key t ((k, old) ∷ rest) = elim (Bool-cases (k == key)) [
  | inl e ↦ rw e (Memᴰ.head refl)
  | inr e ↦ rw e (Memᴰ.tail (tracked-set key t rest))
]

ensured :
    (pubkey_from_secret : String → String) (id secret : String) (r : Router)
    → (includes r.subscribed_secrets secret ≡ true)
      ⊎ Memᴰ
          (record { order_id = id; secret = secret })
          (tracked_secrets
            (ensure_subscription pubkey_from_secret id secret r).order_by_subscription)
unfolding ensure_subscription
ensured pubkey_from_secret id secret r = elim (Bool-cases (includes r.subscribed_secrets secret)) [
  | inl e ↦ inl e
  | inr e ↦
      let (r', key) =
        subscribe_pubkey pubkey_from_secret secret
          (record r { subscribed_secrets = r.subscribed_secrets ++ secret ∷ [] }) in
      inr (rw e (tracked-set key _ r'.order_by_subscription))
]

pub Routed-track :
    (pubkey_from_secret : String → String) (id secret : String) (old : Option Router) (r : Router)
    → old ≡ some r
    → Routed id secret old (track_order pubkey_from_secret id secret old)
Routed-track pubkey_from_secret id secret old r e = record {
  before = r;
  after = ensure_subscription pubkey_from_secret id secret r;
  running = e;
  kept = rw e;
  tracked = ensured pubkey_from_secret id secret r;
}
