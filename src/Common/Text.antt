-- ===== src/Common/Text.antt =====
-- The string methods that the source calls, over the characters of a native string.
use Prim.Native.Nat.{ℕ, zero, suc, ◌+◌, ◌-◌, ◌/◌, ◌%◌, ◌<◌, compare, Ordering}
use Prim.Native.Char.{Char, char, code, IsScalar}
use Prim.Native.String.{String}
use mathlib.Core.Path.{◌≡◌, refl}
use mathlib.Core.Bool.{Bool, true, false, not, ◌&&◌, ◌||◌}
use mathlib.Core.Logic.{dite}
use mathlib.Core.List.{List, [], ◌∷◌}
use native.Mathlib.Decide.{dec_lt, ℕ_discrete}
use native.Mathlib.Omega.{arith}
use mostro_ts_client.Common.Tests.{leb, ltb, if◌then◌else◌, ◌==◌, nat_eq}

IsScalar_of_lt : (n : ℕ) → n < 55296 → IsScalar n
IsScalar_of_lt n h = let e : compare n 55296 ≡ Ordering.lt = ground arith in rw e tt

-- `s.toLowerCase()`, exactly as far as a comparison with ASCII text can tell: A to Z, and U+212A,
-- the only other character whose lower case is a single ASCII letter.
lower_char : Char → Char
unfolding dec_lt IsScalar_of_lt
lower_char c =
    let n = code c in
    dite (dec_lt n 91)
      (λ h. if ltb n 65 then c else char (n + 32) (IsScalar_of_lt (n + 32) (omega arith)))
      (λ _. if n == 8490 then "k" else c)

-- `lower(…)` of SQLite: A to Z only
lower_ascii_char : Char → Char
unfolding dec_lt IsScalar_of_lt
lower_ascii_char c =
    let n = code c in
    dite (dec_lt n 91)
      (λ h. if ltb n 65 then c else char (n + 32) (IsScalar_of_lt (n + 32) (omega arith))) (λ _. c)

-- `s.toUpperCase()` on ASCII text; other characters are left as they are.
upper_char : Char → Char
unfolding dec_lt IsScalar_of_lt
upper_char c =
    let n = code c in
    dite (dec_lt n 123)
      (λ h. if ltb n 97 then c else char (n - 32) (IsScalar_of_lt (n - 32) (omega arith))) (λ _. c)

map_chars : (Char → Char) → String → String
map_chars f String.[] = String.[]
map_chars f (String.◌∷◌ c s) = String.◌∷◌ (f c) (map_chars f s)

unfoldable pub to_lower : String → String
unfolding lower_char map_chars ℕ_discrete
to_lower = map_chars lower_char

unfoldable pub lower_ascii : String → String
unfolding lower_ascii_char map_chars
lower_ascii = map_chars lower_ascii_char

unfoldable pub to_upper : String → String
unfolding upper_char map_chars
to_upper = map_chars upper_char

-- white space and line ends, as `trim` removes them
abbrev pub is_space : ℕ → Bool
is_space n =
    (leb 9 n && leb n 13)
    || n == 32
    || n == 160
    || n == 5760
    || (leb 8192 n && leb n 8202)
    || n == 8232
    || n == 8233
    || n == 8239
    || n == 8287
    || n == 12288
    || n == 65279

trim_start : String → String
trim_start String.[] = String.[]
trim_start (String.◌∷◌ c s) =
    let rest = trim_start s in if is_space (code c) then rest else String.◌∷◌ c s

-- without the white space at the end
trim_end : String → String
trim_end String.[] = String.[]
trim_end (String.◌∷◌ c s) = close c (trim_end s)
  where
    close : Char → String → String
    close c String.[] = if is_space (code c) then String.[] else String.◌∷◌ c String.[]
    close c t = String.◌∷◌ c t

unfoldable pub trim : String → String
unfolding trim_start trim_end ℕ_discrete
trim s = trim_end (trim_start s)

lower_test : to_lower "Waiting-MaKer-Bond é" ≡ "waiting-maker-bond é"
unfolding to_lower
lower_test = refl

upper_test : to_upper (trim " \t usd ") ≡ "USD"
unfolding to_upper trim
upper_test = refl

-- `s.slice(0, n)`
unfoldable pub take_chars : ℕ → String → String
take_chars zero s = ""
take_chars (suc n) String.[] = ""
take_chars (suc n) (String.◌∷◌ c s) = String.◌∷◌ c (take_chars n s)

-- `s + t`
unfoldable pub append : String → String → String
append String.[] t = t
append (String.◌∷◌ c s) t = String.◌∷◌ c (append s t)

-- `s.split(",")`
abbrev begin : Char → List String → List String
begin c [] = String.◌∷◌ c "" ∷ []
begin c (w ∷ ws) = String.◌∷◌ c w ∷ ws

unfoldable pub split_commas : String → List String
unfolding ℕ_discrete
split_commas String.[] = "" ∷ []
split_commas (String.◌∷◌ c s) =
    let rest = split_commas s in if code c == 44 then "" ∷ rest else begin c rest

split_test : split_commas "a,,bc" ≡ "a" ∷ "" ∷ "bc" ∷ []
unfolding split_commas
split_test = refl

-- `s.startsWith(p)`
unfoldable pub starts_with : String → String → Bool
unfolding ℕ_discrete
starts_with s String.[] = true
starts_with String.[] (String.◌∷◌ d p) = false
starts_with (String.◌∷◌ c s) (String.◌∷◌ d p) = code c == code d && starts_with s p

-- the code units of a text: a character above the basic plane has two
unfoldable pub utf16 : String → List ℕ
utf16 String.[] = []
utf16 (String.◌∷◌ c s) =
    let rest = utf16 s in
    let n = code c in
    if ltb n 65536
    then n ∷ rest
    else (55296 + (n - 65536) / 1024) ∷ (56320 + (n - 65536) % 1024) ∷ rest

starts_test : starts_with "lnbc1" "lnbc" && not (starts_with "ln" "lnbc") ≡ true
unfolding starts_with
starts_test = refl
