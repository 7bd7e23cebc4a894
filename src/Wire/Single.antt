-- ===== src/Wire/Single.antt =====
-- Reading back single fields and values.
use mostro_ts_client.Common.{
  String, false, ◌≡◌, refl, Option, none, some, List, [], ◌∷◌, map, ◌==◌, string_eq, Result, ok,
  ◌>>=◌, ==_of_eq, arith,
}
use mathlib.Core.Option
use mostro_ts_client.Common.Int.{ℤ, pos, negsuc}
use mostro_ts_client.Common.Lists.{All, length}
use mostro_ts_client.Fault.{Fault}
use mostro_ts_client.Wire.{
  Value, undefined, string, integer, int, Fields, nullable, optional, items, get, require_string,
  require_number, require_integer, unless_null, optional_string, optional_integer, cast, each,
  count,
}
use mostro_ts_client.Wire.Fits.{FitsText, Maybe, FitsIndex}

pub require_string-string : (s : String) → FitsText s → require_string (string s) ≡ ok s
unfolding require_string
require_string-string s h = ground arith

pub require_number-int : (n : ℤ) → require_number (int n) ≡ ok (integer n)
unfolding require_number
require_number-int n = refl

pub require_integer-int : (n : ℤ) → FitsIndex n → require_integer (int n) ≡ ok n
unfolding require_integer require_number
require_integer-int (pos n) h = refl
require_integer-int (negsuc n) h = absurd (omega arith)

pub optional_string-nullable :
    (o : Option String) → Maybe FitsText o → optional_string (nullable string o) ≡ ok o
unfolding optional_string
optional_string-nullable none h = refl
optional_string-nullable (some s) h = rw (require_string-string s h)

pub optional_integer-nullable :
    (o : Option ℤ) → Maybe FitsIndex o → optional_integer (nullable int o) ≡ ok o
unfolding optional_integer
optional_integer-nullable none h = refl
optional_integer-nullable (some n) h = rw (require_integer-int n h)

-- a cast keeps what a writer of an optional value wrote
pub cast-nullable_string : (o : Option String) → cast (nullable string o) ≡ nullable string o
unfolding cast
cast-nullable_string none = refl
cast-nullable_string (some s) = refl

pub cast-nullable-int : (o : Option ℤ) → cast (nullable int o) ≡ nullable int o
unfolding cast
cast-nullable-int none = refl
cast-nullable-int (some n) = refl

pub cast-nullable_text :
    {A : Type 0} (text : A → String) (o : Option A)
    → cast (nullable (λ a. string (text a)) o) ≡ nullable (λ a. string (text a)) o
unfolding cast
cast-nullable_text text none = refl
cast-nullable_text text (some a) = refl

-- a field that may be left out, read by its key, and by another key
pub cast-get-optional :
    (k : String) (o : Option String) (fs : Fields)
    → get k fs ≡ undefined
    → cast (get k (optional k o fs)) ≡ nullable string o
unfolding cast get optional
cast-get-optional k none fs h = rw h
cast-get-optional k (some s) fs h = ground arith

pub get-optional :
    (j k : String) (o : Option String) (fs : Fields) {v : Value}
    → (j == k) ≡ false
    → get k fs ≡ v
    → get k (optional j o fs) ≡ v
unfolding get optional
get-optional j k none fs e h = h
get-optional j k (some s) fs e h = rw e h

-- a list of values is read back when each of its elements is
pub each-items :
    {A B : Type 0} (write : A → Value) (read : Value → Result Fault B) (view : A → B)
    (P : A → Type 0)
    → ((a : A) → P a → read (write a) ≡ ok (view a))
    → (xs : List A) → All P xs
    → each read (items write xs) ≡ ok (map view xs)
unfolding each items
each-items write read view P back [] h = refl
each-items write read view P back (x ∷ xs) (h, hs) =
    rw (back x h, each-items write read view P back xs hs)

pub count-items :
    {A : Type 0} (write : A → Value) (xs : List A) → count (items write xs) ≡ length xs
unfolding count items
count-items write [] = refl
count-items write (x ∷ xs) = rw (count-items write xs)

-- an optional value, written as null where it is missing
pub unless_null-nullable :
    {A B : Type 0} (write : A → Value) (read : Value → Result Fault B) (view : A → B)
    (P : A → Type 0)
    → ((a : A) → P a → unless_null read (write a) ≡ ok (some (view a)))
    → (o : Option A) → Maybe P o
    → unless_null read (nullable write o) ≡ ok (Option.map view o)
unless_null-nullable write read view P back none h = refl
unless_null-nullable write read view P back (some a) h = back a h

pub some_of_ok :
    {B : Type 0} (m : Result Fault B) (b : B) → m ≡ ok b → (m >>= λ a. ok (some a)) ≡ ok (some b)
some_of_ok m b e = rw e

pub optional_string-get :
    (k : String) (o : Option String) (fs : Fields)
    → get k fs ≡ undefined
    → Maybe FitsText o
    → optional_string (get k (optional k o fs)) ≡ ok o
unfolding optional_string get optional
optional_string-get k none fs e h = rw e
optional_string-get k (some s) fs e h = rw (==_of_eq k k refl, require_string-string s h)
