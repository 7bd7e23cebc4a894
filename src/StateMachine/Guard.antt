-- ===== src/StateMachine/Guard.antt =====
-- What the status guard lets through.
use mostro_ts_client.Common.{
  ℕ, ◌≤◌, true, false, ◌≡◌, refl, ◌≢◌, ◌⊎◌, ◌↔◌, inl, inr, Option, none, some, arith, Option-cases,
  Bool-cases, sym, ==_of_ne, eq_of_==, option_eq,
}
use mathlib.Core.Bool.{and-eq-true_iff}
use mostro_ts_client.Kind.{Kind}
use mostro_ts_client.Status.{Status, status_eq, Status-discrete, success, settled_hold_invoice}
use mostro_ts_client.Action.{Action, action_eq}
use mostro_ts_client.StateMachine.{
  not_behind, is_terminal_trade_status, status_phase_rank_for_actor, should_apply_status_transition,
}

-- The transitions of the phase graph, from the doc comment of the guard.
pub data Advances (kind : Option Kind) (action : Option Action) (c d : Status) : Type 0 where
  same : c ≡ d → Advances kind action c d
  reopen :
      action ≡ some Action.add_invoice
      → c ≡ success
      → d ≡ settled_hold_invoice
      → Advances kind action c d
  finish :
      is_terminal_trade_status c ≡ false
      → is_terminal_trade_status d ≡ true
      → Advances kind action c d
  progress :
      (m n : ℕ)
      → is_terminal_trade_status c ≡ false
      → is_terminal_trade_status d ≡ false
      → status_phase_rank_for_actor c kind ≡ some m
      → status_phase_rank_for_actor d kind ≡ some n
      → m ≤ n
      → Advances kind action c d

success_IsTerminal : is_terminal_trade_status success ≡ true
unfolding is_terminal_trade_status
success_IsTerminal = refl

Advances-complete :
    {kind : Option Kind} {action : Option Action} {c d : Status}
    → Advances kind action c d
    → should_apply_status_transition (some c) d kind action ≡ true
unfolding should_apply_status_transition
Advances-complete (same e) = ground arith
Advances-complete (reopen a c d) = ground (arith, success_IsTerminal)
Advances-complete (finish c d) = ground arith
Advances-complete (progress m n c d p q h) = ground arith

progress_of :
    (kind : Option Kind) (action : Option Action) (c d : Status)
    → is_terminal_trade_status c ≡ false
    → is_terminal_trade_status d ≡ false
    → not_behind (status_phase_rank_for_actor c kind) (status_phase_rank_for_actor d kind) ≡ true
    → Advances kind action c d
progress_of kind action c d p q h = elim (Option-cases (status_phase_rank_for_actor c kind)) [
  | inl none_c ↦ cc (rw (none_c) at h)
  | inr (m, some_m) ↦ elim (Option-cases (status_phase_rank_for_actor d kind)) [
    | inl none_d ↦ absurd (ground arith)
    | inr (n, some_n) ↦ progress m n p q some_m some_n (ground arith)
  ]
]

-- what is left of the guard once its first tests are known
reopened :
    (kind : Option Kind) (action : Option Action) (c d : Status)
    → c ≢ d
    → is_terminal_trade_status c ≡ true
    → should_apply_status_transition (some c) d kind action ≡ true
    → (action ≡ some Action.add_invoice) × (c ≡ success) × (d ≡ settled_hold_invoice)
unfolding should_apply_status_transition
reopened kind action c d n t h =
    let (front, now) = (and-eq-true_iff _ _).0 (rw (==_of_ne c d n, t) at h) in
    let (acted, was) = (and-eq-true_iff _ _).0 front in
    (eq_of_== _ _ acted, eq_of_== _ _ was, eq_of_== _ _ now)

ranked :
    (kind : Option Kind) (action : Option Action) (c d : Status)
    → c ≢ d
    → is_terminal_trade_status c ≡ false
    → is_terminal_trade_status d ≡ false
    → should_apply_status_transition (some c) d kind action ≡ true
    → not_behind (status_phase_rank_for_actor c kind) (status_phase_rank_for_actor d kind) ≡ true
unfolding should_apply_status_transition
ranked kind action c d n t u h = rw (==_of_ne c d n, t, u) at h

Advances-sound :
    (kind : Option Kind) (action : Option Action) (c d : Status)
    → should_apply_status_transition (some c) d kind action ≡ true
    → Advances kind action c d
Advances-sound kind action c d h = elim (Status-discrete c d) [
  | yes e ↦ same e
  | no n ↦ elim (Bool-cases (is_terminal_trade_status c)) [
    | inl t ↦ let (a, was, now) = reopened kind action c d n t h in reopen a was now
    | inr f ↦ elim (Bool-cases (is_terminal_trade_status d)) [
      | inl t ↦ finish f t
      | inr g ↦ progress_of kind action c d f g (ranked kind action c d n f g h)
    ]
  ]
]

-- The guard accepts a candidate over a known status exactly when the two are the same, or neither
-- is terminal and the candidate's rank for the actor is known and not lower, or the candidate alone
-- is terminal, or an add-invoice message takes `success` back to `settled-hold-invoice`.
pub should_apply_iff :
    (kind : Option Kind) (action : Option Action) (c d : Status)
    → (should_apply_status_transition (some c) d kind action ≡ true) ↔ Advances kind action c d
should_apply_iff kind action c d = (Advances-sound kind action c d, Advances-complete)

-- A terminal status is left only by the reopening of `success`; every other candidate is refused.
pub terminal_sticky :
    (kind : Option Kind) (action : Option Action) (c d : Status)
    → is_terminal_trade_status c ≡ true
    → should_apply_status_transition (some c) d kind action ≡ true
    → (d ≡ c) ⊎ ((action ≡ some Action.add_invoice) × (c ≡ success) × (d ≡ settled_hold_invoice))
terminal_sticky kind action c d t h = elim (Status-discrete d c) [
  | yes e ↦ inl e
  | no n ↦ inr (reopened kind action c d (λ e. n (sym e)) t h)
]

not_reopened : ¬ (none ≡ some Action.add_invoice)
not_reopened e = cc

not_behind_antisymm : (p q : Option ℕ) → not_behind p q ≡ true → not_behind q p ≡ true → p ≡ q
not_behind_antisymm p q h k = ground arith

-- Two different statuses that are accepted over each other without an action are not terminal and
-- have the same known rank: there is no way back to an earlier phase.
pub no_return :
    (kind : Option Kind) (c d : Status)
    → c ≢ d
    → should_apply_status_transition (some c) d kind none ≡ true
    → should_apply_status_transition (some d) c kind none ≡ true
    → (is_terminal_trade_status c ≡ false)
      × (is_terminal_trade_status d ≡ false)
      × (status_phase_rank_for_actor c kind ≡ status_phase_rank_for_actor d kind)
no_return kind c d n h k = elim (Bool-cases (is_terminal_trade_status c)) [
  | inl t ↦ absurd (not_reopened (reopened kind none c d n t h).0)
  | inr f ↦ elim (Bool-cases (is_terminal_trade_status d)) [
    | inl t ↦ absurd (not_reopened (reopened kind none d c (λ e. n (sym e)) t k).0)
    | inr g ↦ (
      f,
      g,
      not_behind_antisymm _ _ (ranked kind none c d n f g h)
          (ranked kind none d c (λ e. n (sym e)) g f k),
    )
  ]
]
