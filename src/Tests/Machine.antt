-- ===== src/Tests/Machine.antt =====
-- Examples for the status guard and the vocabulary.
use mostro_ts_client.Common.{◌≡◌, ◌↔◌, true, none, some}
use mostro_ts_client.Kind.{buy}
use mostro_ts_client.Status.{active, fiat_sent}
use mostro_ts_client.StateMachine.{should_apply_status_transition}
use mostro_ts_client.StateMachine.Guard.{Advances, should_apply_iff}

should_apply_iff_example :
    (should_apply_status_transition (some active) fiat_sent (some buy) none ≡ true)
    ↔ Advances (some buy) none active fiat_sent
should_apply_iff_example = should_apply_iff (some buy) none active fiat_sent
