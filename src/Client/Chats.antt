-- ===== src/Client/Chats.antt =====
-- The chats of src/protocol/client.ts: a message that is delivered again is dropped.
use mostro_ts_client.Common.{
  String, Bool, true, false, ◌||◌, ◌≡◌, refl, ◌≢◌, List, [], ◌∷◌, ◌++◌, ◌==◌, ◌!=◌, string_eq,
  is_some, Bool-cases, inl, inr, !=_of_ne, ==_of_eq,
}
use mostro_ts_client.Common.Dict.{lookup}
use mostro_ts_client.Common.Lists.{includes}
use mostro_ts_client.Store.{ChatMessageRow}
use mostro_ts_client.UiStore.{ChatMessage, Scope, order, dispute}
use mostro_ts_client.Client.{
  Client, is_seen, mark_seen, record_order_chat, record_dispute_chat, hydrate_chat,
}

-- what happens to the chats: a message is received or sent, or an order's chats are loaded
pub data ChatStep : Type 0 where
  said : Scope → String → ChatMessage → ChatStep
  opened : String → ChatStep

or_true : (b : Bool) → (b || true) ≡ true
or_true true = refl
or_true false = refl

kept-append :
    (id : String) (xs ys : List String) → includes ys id ≡ true → includes (xs ++ ys) id ≡ true
kept-append id [] ys h = h
kept-append id (x ∷ xs) ys h = rw (kept-append id xs ys h) (or_true (x == id))

module _ {S : Type 0} (save : ChatMessageRow → S → S)
    (stored : String → Scope → S → List ChatMessageRow) where
  abbrev pub step : ChatStep → Client S → Client S
  step (said order id msg) c = record_order_chat save id msg c
  step (said dispute id msg) c = record_dispute_chat save id msg c
  step (opened id) c = hydrate_chat stored id c

  abbrev pub run : List ChatStep → Client S → Client S
  run [] c = c
  run (s ∷ steps) c = run steps (step s c)

  -- a message id that was recorded
  abbrev pub Known : String → Client S → Type 0
  Known id c = includes c.chat_seen id ≡ true

  kept-mark :
      (id j : String) (seen : List String)
      → includes seen id ≡ true
      → includes (mark_seen j seen) id ≡ true
  kept-mark id j seen h = elim (Bool-cases (j != "")) [
    | inl e ↦ rw (e, h) (or_true (j == id))
    | inr e ↦ rw (e, h)
  ]

  kept_order :
      (id order_id : String) (msg : ChatMessage) (c : Client S)
      → Known id c
      → Known id (record_order_chat save order_id msg c)
  unfolding record_order_chat
  kept_order id order_id msg c h = elim (Bool-cases (is_seen msg.outer_event_id c)) [
    | inl e ↦ rw (e, h)
    | inr e ↦ rw e (kept-mark id msg.outer_event_id c.chat_seen h)
  ]

  kept_dispute :
      (id order_id : String) (msg : ChatMessage) (c : Client S)
      → Known id c
      → Known id (record_dispute_chat save order_id msg c)
  unfolding record_dispute_chat
  kept_dispute id order_id msg c h = elim (Bool-cases (is_seen msg.outer_event_id c)) [
    | inl e ↦ rw (e, h)
    | inr e ↦ rw e (kept-mark id msg.outer_event_id c.chat_seen h)
  ]

  kept_loaded :
      (id order_id : String) (c : Client S) → Known id c → Known id (hydrate_chat stored order_id c)
  unfolding hydrate_chat
  kept_loaded id order_id c h = elim (Bool-cases (is_some (lookup order_id c.order_chat_history))) [
    | inl e ↦ rw (e, h)
    | inr e ↦ rw e (kept-append id _ c.chat_seen h)
  ]

  kept_step : (id : String) (s : ChatStep) (c : Client S) → Known id c → Known id (step s c)
  kept_step id (said order order_id msg) c h = kept_order id order_id msg c h
  kept_step id (said dispute order_id msg) c h = kept_dispute id order_id msg c h
  kept_step id (opened order_id) c h = kept_loaded id order_id c h

  kept_run :
      (id : String) (steps : List ChatStep) (c : Client S) → Known id c → Known id (run steps c)
  kept_run id [] c h = h
  kept_run id (s ∷ steps) c h = kept_run id steps (step s c) (kept_step id s c h)

  marked : (id : String) (seen : List String) → id ≢ "" → includes (mark_seen id seen) id ≡ true
  marked id seen n = rw (!=_of_ne id "" n, ==_of_eq id id refl)

  seen-Known : (id : String) (c : Client S) → is_seen id c ≡ true → Known id c
  seen-Known id c h = elim (Bool-cases (id != "")) [
    | inl e ↦ rw e at h
    | inr e ↦ let h' = rw e at h in cc
  ]

  Known-said :
      (scope : Scope) (order_id : String) (msg : ChatMessage) (c : Client S)
      → msg.outer_event_id ≢ ""
      → Known msg.outer_event_id (step (said scope order_id msg) c)
  unfolding record_order_chat record_dispute_chat
  Known-said order order_id msg c n = elim (Bool-cases (is_seen msg.outer_event_id c)) [
    | inl e ↦ rw (e, seen-Known msg.outer_event_id c e)
    | inr e ↦ rw e (marked msg.outer_event_id c.chat_seen n)
  ]
  Known-said dispute order_id msg c n = elim (Bool-cases (is_seen msg.outer_event_id c)) [
    | inl e ↦ rw (e, seen-Known msg.outer_event_id c e)
    | inr e ↦ rw e (marked msg.outer_event_id c.chat_seen n)
  ]

  said_inert :
      (scope : Scope) (id : String) (msg : ChatMessage) (c : Client S)
      → is_seen msg.outer_event_id c ≡ true
      → step (said scope id msg) c ≡ c
  unfolding record_order_chat record_dispute_chat
  said_inert order id msg c h = rw h
  said_inert dispute id msg c h = rw h

  -- A chat message with an event id that was recorded once, in any chat of any order, is dropped ever
  -- after: whatever is said or loaded in between, recording a message with that event id again
  -- changes neither the chats nor the database.
  pub duplicate_inert :
      (scope : Scope) (order_id : String) (msg : ChatMessage) (steps : List ChatStep)
      (scope' : Scope) (order_id' : String) (msg' : ChatMessage) (c : Client S)
      → msg.outer_event_id ≢ ""
      → msg'.outer_event_id ≡ msg.outer_event_id
      → let c' = run (said scope order_id msg ∷ steps) c in
        step (said scope' order_id' msg') c' ≡ c'
  duplicate_inert scope order_id msg steps scope' order_id' msg' c n e =
      let c' = run (said scope order_id msg ∷ steps) c in
      let k : Known msg.outer_event_id c' =
        kept_run msg.outer_event_id steps (step (said scope order_id msg) c)
          (Known-said scope order_id msg c n) in
      said_inert scope' order_id' msg' c' (rw (e, !=_of_ne msg.outer_event_id "" n, k))
