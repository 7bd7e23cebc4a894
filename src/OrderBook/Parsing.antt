-- ===== src/OrderBook/Parsing.antt =====
-- The strings of a tag: `parseIntSafe`, `v.includes(".")` and `values.join(",")`.
use Prim.Native.Char.{code}
use mostro_ts_client.Common.{
  ℕ, ◌+◌, ◌*◌, ◌-◌, String, Bool, true, false, ◌&&◌, Option, none, some, List, [], ◌∷◌,
  if◌then◌else◌, ◌==◌, nat_eq, leb, ◌≡◌, refl, ℕ_discrete,
}
use mathlib.Core.Option
use mostro_ts_client.Common.Text.{append}
use mostro_ts_client.Common.Int.{ℤ, pos, negsuc, ◌-ℤ◌}

-- the number that digits write, after the digits read so far
digits : ℕ → String → Option ℕ
digits n String.[] = some n
digits n (String.◌∷◌ c s) =
    let rest = digits (n * 10 + (code c - 48)) s in
    if leb 48 (code c) && leb (code c) 57 then rest else none

nonempty_digits : String → Option ℕ
nonempty_digits String.[] = none
nonempty_digits s = digits 0 s

-- an optional minus sign and digits, and nothing else
unfoldable pub parse_int_safe : String → Option ℤ
unfolding nonempty_digits digits ℕ_discrete
parse_int_safe String.[] = none
parse_int_safe (String.◌∷◌ c s) =
    if code c == 45
    then Option.map (λ n. pos 0 -ℤ pos n) (nonempty_digits s)
    else Option.map pos (nonempty_digits (String.◌∷◌ c s))

unfoldable pub has_dot : String → Bool
unfolding ℕ_discrete
has_dot String.[] = false
has_dot (String.◌∷◌ c s) = let rest = has_dot s in if code c == 46 then true else rest

unfoldable pub join : List String → String
unfolding append
join [] = ""
join (v ∷ []) = v
join (v ∷ values) = append v (append "," (join values))

parse_test : parse_int_safe "-120" ≡ some (negsuc 119)
unfolding parse_int_safe ◌-ℤ◌
parse_test = refl

parse_refused : parse_int_safe "12.5" ≡ none
unfolding parse_int_safe ◌-ℤ◌
parse_refused = refl

join_test : join ("a" ∷ "b" ∷ []) ≡ "a,b"
unfolding join
join_test = refl
