-- ===== src/Vocabulary/Statuses.antt =====
-- Order kinds and statuses (kind.ts, status.ts).
use mostro_ts_client.Common.{
  String, ◌≡◌, refl, ◌↔◌, Option, some, if◌then◌else◌, ◌==◌, string_eq, String-discrete, arith,
}
use mostro_ts_client.Common.Text.{to_lower}
use mostro_ts_client.Kind.{Kind, buy, sell, kind_to_string, kind_from_string}
use mostro_ts_client.Status.{
  Status, active, canceled, canceled_by_admin, settled_by_admin, completed_by_admin, dispute,
  expired, fiat_sent, settled_hold_invoice, pending, success, waiting_buyer_invoice,
  waiting_payment, waiting_taker_bond, cooperatively_canceled, in_progress, waiting_maker_bond,
  status_to_string, status_from_string,
}
use mostro_ts_client.Vocabulary.Find.{Reads, none-Reads, case-Reads}

kind-text : (s : String) (k : Kind) → kind_from_string s ≡ some k → to_lower s ≡ kind_to_string k
unfolding kind_from_string kind_to_string
kind-text s k h = ground arith

case :
    (t : String) (x : Status) {rest : Option Status}
    → Reads status_to_string t rest
    → Reads status_to_string t (if t == status_to_string x then some x else rest)
case = case-Reads status_to_string

status-text :
    (s : String) (st : Status) → status_from_string s ≡ some st → to_lower s ≡ status_to_string st
unfolding status_from_string status_to_string
status-text s =
    let t = to_lower s in
    case t active (
      case t canceled (
        case t canceled_by_admin (
          case t settled_by_admin (
            case t completed_by_admin (
              case t dispute (
                case t expired (
                  case t fiat_sent (
                    case t settled_hold_invoice (
                      case t pending (
                        case t success (
                          case t waiting_buyer_invoice (
                            case t waiting_payment (
                              case t waiting_taker_bond (
                                case t cooperatively_canceled (
                                  case t in_progress (
                                    case t waiting_maker_bond
                                      (none-Reads status_to_string t)))))))))))))))))

kind_from_text :
    (s : String) (k : Kind) → to_lower s ≡ kind_to_string k → kind_from_string s ≡ some k
unfolding kind_from_string kind_to_string String-discrete
kind_from_text s buy h = rw (h, kind_from_string)
kind_from_text s sell h = rw (h, kind_from_string)

status_from_text :
    (s : String) (st : Status) → to_lower s ≡ status_to_string st → status_from_string s ≡ some st
unfolding status_from_string status_to_string String-discrete
status_from_text s active h = rw (h, status_from_string)
status_from_text s _ h = rw (h, status_from_string)

-- `kindFromString` returns a kind exactly when the text is that kind's text in some mix of upper and
-- lower case.
pub kind_from_string_iff :
    (s : String) (k : Kind) → (kind_from_string s ≡ some k) ↔ (to_lower s ≡ kind_to_string k)
kind_from_string_iff s k = (kind-text s k, kind_from_text s k)

-- `statusFromString` returns a status exactly when the text is that status's text in some mix of
-- upper and lower case.
pub status_from_string_iff :
    (s : String) (st : Status)
    → (status_from_string s ≡ some st) ↔ (to_lower s ≡ status_to_string st)
status_from_string_iff s st = (status-text s st, status_from_text s st)

-- the text of a status is read back as that status
pub status_round_trip : (st : Status) → status_from_string (status_to_string st) ≡ some st
unfolding status_from_string status_to_string to_lower String-discrete
status_round_trip active = refl
status_round_trip _ = refl

pub kind_round_trip : (k : Kind) → kind_from_string (kind_to_string k) ≡ some k
unfolding kind_from_string kind_to_string to_lower String-discrete
kind_round_trip buy = refl
kind_round_trip sell = refl
