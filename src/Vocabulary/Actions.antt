-- ===== src/Vocabulary/Actions.antt =====
-- Actions and refusal reasons (action.ts, cantDo.ts).
use mostro_ts_client.Common.{String, ◌≡◌, refl, sym, ◌↔◌, some, String-discrete}
use mostro_ts_client.Vocabulary.Find.{find_first-text}
use mostro_ts_client.Action.{Action, all_actions, action_to_string, action_from_string}
use mostro_ts_client.CantDo.{
  CantDoReason, all_reasons, cant_do_reason_to_string, cant_do_reason_from_string,
}

action_from_text : (a : Action) → action_from_string (action_to_string a) ≡ some a
unfolding action_from_string action_to_string String-discrete
action_from_text Action.new_order = refl
action_from_text _ = refl

reason_from_text :
    (r : CantDoReason) → cant_do_reason_from_string (cant_do_reason_to_string r) ≡ some r
unfolding cant_do_reason_from_string cant_do_reason_to_string String-discrete
reason_from_text CantDoReason.invalid_signature = refl
reason_from_text _ = refl

action_of_text : (s : String) (a : Action) → s ≡ action_to_string a → action_from_string s ≡ some a
action_of_text s a h = rw h (action_from_text a)

action-text : (s : String) (a : Action) → action_from_string s ≡ some a → s ≡ action_to_string a
unfolding action_from_string
action-text s a h = sym (find_first-text action_to_string s all_actions a h)

-- `actionFromString` returns an action exactly when the text is that action's text, in the same
-- case; every other text gives null.
pub action_from_string_iff :
    (s : String) (a : Action) → (action_from_string s ≡ some a) ↔ (s ≡ action_to_string a)
action_from_string_iff s a = (action-text s a, action_of_text s a)

reason_of_text :
    (s : String) (r : CantDoReason)
    → s ≡ cant_do_reason_to_string r
    → cant_do_reason_from_string s ≡ some r
reason_of_text s r h = rw h (reason_from_text r)

reason-text :
    (s : String) (r : CantDoReason)
    → cant_do_reason_from_string s ≡ some r
    → s ≡ cant_do_reason_to_string r
unfolding cant_do_reason_from_string
reason-text s r h = sym (find_first-text cant_do_reason_to_string s all_reasons r h)

-- `cantDoReasonFromString` returns a reason exactly when the text is that reason's text.
pub cant_do_reason_from_string_iff :
    (s : String) (r : CantDoReason)
    → (cant_do_reason_from_string s ≡ some r) ↔ (s ≡ cant_do_reason_to_string r)
cant_do_reason_from_string_iff s r = (reason-text s r, reason_of_text s r)
