-- ===== src/Tests/Interface.antt =====
-- Examples for the state of the user interface.
use mostro_ts_client.Common.{String, ◌≡◌, List, [], ◌∷◌, ◌++◌}
use mostro_ts_client.Common.Int.{pos}
use mostro_ts_client.UiStore.{ChatMessage, order, dispute, MostroUiState, initial_state}
use mostro_ts_client.UiStore.Updates.{Arrival, history, received, arrive, history-arrive}

abbrev pub said_by_peer : String → ChatMessage
said_by_peer text = record {
  content = text;
  sender = "peer";
  created_at = pos 1;
  inner_event_id = "i";
  outer_event_id = "o";
}

abbrev arrivals : List Arrival
arrivals =
    ("o1", order, said_by_peer "hi")
    ∷ ("o2", order, said_by_peer "no")
    ∷ ("o1", dispute, said_by_peer "help")
    ∷ []

abbrev blank : MostroUiState (Unit {0})
blank = initial_state

history-arrive_example :
    history "o1" order (arrive arrivals blank)
    ≡ history "o1" order blank ++ received "o1" order arrivals
history-arrive_example = history-arrive "o1" order arrivals blank
