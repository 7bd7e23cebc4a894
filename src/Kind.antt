-- ===== src/Kind.antt =====
-- src/protocol/kind.ts: the direction of an order.
use mostro_ts_client.Common.{String, Option, none, some, if◌then◌else◌, ◌==◌, Eq, string_eq}
use mostro_ts_client.Common.Text.{to_lower}

pub data Kind : Type 0 where
  buy sell : Kind

unfoldable pub Kind-discrete : Discrete Kind
Kind-discrete = hlevel

instance abbrev pub kind_eq : Eq Kind
kind_eq = record { dec = Kind-discrete }

-- the value on the wire
unfoldable pub kind_to_string : Kind → String
kind_to_string buy = "buy"
kind_to_string sell = "sell"

-- the `switch` over the lower-case text
kind_of_lower : String → Option Kind
kind_of_lower t = if t == "buy" then some buy else if t == "sell" then some sell else none

unfoldable pub kind_from_string : String → Option Kind
unfolding kind_of_lower
kind_from_string s = kind_of_lower (to_lower s)
