-- ===== src/Wire.antt =====
-- src/protocol/wire.ts: the JSON form of a message. This file has the values that the code goes
-- through and the readers of single values; Wire/Write has the writers; the readers stand in Wire/Parts
-- and Wire/Read.
pub mod Write
pub mod Decoded
pub mod Typed
pub mod Parts
pub mod Read
pub mod Json
pub mod Fits
mod Single
mod Orders
mod Records
mod Payloads
pub mod RoundTrip
mod Returns
mod Restores
pub mod Bounds
use mostro_ts_client.Common.{
  ℕ, zero, suc, ◌+◌, String, Bool, Option, none, some, List, [], ◌∷◌, if◌then◌else◌, ◌==◌,
  string_eq, String-discrete, ltb, Result, ok, err, throw_if, ◌>>=◌, ◌>>◌,
}
use mostro_ts_client.Common.Text.{utf16}
use mostro_ts_client.Common.Lists.{length}
use mostro_ts_client.Common.Int.{ℤ, pos, negsuc}
use mostro_ts_client.Fault.{
  Fault, not_an_object, not_an_array, not_one_key, not_a_string, string_too_long, not_a_number,
  not_an_index, not_a_boolean, type_error,
}

-- A `number`: an integer, a finite number between n and n + 1, or what JSON.parse makes of 1e999.
pub data Number : Type 0 where
  integer : ℤ → Number
  fraction : ℤ → Number
  infinite : Number

-- A value that JSON.parse returns, or the `undefined` that a missing field is read as. An object
-- has each of its keys once.
mutual
  pub data Value : Type 0 where
    undefined : Value
    null : Value
    boolean : Bool → Value
    number : Number → Value
    string : String → Value
    array : Items → Value
    object : Fields → Value

  pub data Items : Type 0 where
    nil : Items
    cons : Value → Items → Items

  pub data Fields : Type 0 where
    end : Fields
    field : String → Value → Fields → Fields

-- an integer as a value, and an optional value that is written as null
abbrev pub int : ℤ → Value
int n = number (integer n)

abbrev pub nullable : {A : Type 0} → (A → Value) → Option A → Value
nullable write none = null
nullable write (some a) = write a

-- `if (x !== null) { out.k = x; }` before the other fields
unfoldable pub optional : String → Option String → Fields → Fields
optional k none fs = fs
optional k (some s) fs = field k (string s) fs

infixr 60 ◌&◌
abbrev pub ◌&◌ : (Fields → Fields) → Fields → Fields
f & fs = f fs

-- `xs.map(write)`
unfoldable pub items : {A : Type 0} → (A → Value) → List A → Items
items write [] = nil
items write (a ∷ rest) = cons (write a) (items write rest)

-- `o.k` of an object
unfoldable pub get : String → Fields → Value
get k end = undefined
get k (field j v fs) = if j == k then v else get k fs

-- the fields of any value: null and undefined throw when a field is read, and the fields that the
-- code reads are on no prototype of another value
abbrev pub fields_of : Value → Result Fault Fields
fields_of undefined = err type_error
fields_of null = err type_error
fields_of (object fs) = ok fs
fields_of _ = ok end

-- `typeof v !== "object" || v === null || Array.isArray(v)`
abbrev pub require_object : Value → Result Fault Fields
require_object (object fs) = ok fs
require_object _ = err not_an_object

abbrev pub require_array : Value → Result Fault Items
require_array (array xs) = ok xs
require_array _ = err not_an_array

-- `const keys = Object.keys(o); if (keys.length !== 1) throw …; const variant = keys[0];`
abbrev pub single_field : Fields → Result Fault (String × Value)
single_field (field k v end) = ok (k, v)
single_field _ = err not_one_key

-- `s.length`
unfoldable pub utf16_length : String → ℕ
unfolding utf16
utf16_length s = length (utf16 s)

-- MAX_STRING_LENGTH and MAX_RESTORE_ITEMS
abbrev pub max_string_length : ℕ
max_string_length = 1000000

abbrev pub max_restore_items : ℕ
max_restore_items = 10000

unfoldable pub require_string : Value → Result Fault String
require_string (string s) =
    if ltb max_string_length (utf16_length s) then err string_too_long else ok s
require_string _ = err not_a_string

unfoldable pub require_number : Value → Result Fault Number
require_number (number infinite) = err not_a_number
require_number (number n) = ok n
require_number _ = err not_a_number

-- the tests of requireInteger on a number
abbrev require_index : Number → Result Fault ℤ
require_index (integer (pos n)) = ok (pos n)
require_index _ = err not_an_index

unfoldable pub require_integer : Value → Result Fault ℤ
require_integer v = do n ← require_number v; require_index n

unfoldable pub require_boolean : Value → Result Fault Bool
require_boolean (boolean b) = ok b
require_boolean _ = err not_a_boolean

-- a reader that takes null and undefined for null
abbrev pub or_null : {A : Type 0} → (Value → Result Fault A) → Value → Result Fault (Option A)
or_null read undefined = ok none
or_null read null = ok none
or_null read v = do a ← read v; ok (some a)

-- a reader that takes null only for null
abbrev pub unless_null : {A : Type 0} → (Value → Result Fault A) → Value → Result Fault (Option A)
unless_null read null = ok none
unless_null read v = do a ← read v; ok (some a)

unfoldable pub optional_string : Value → Result Fault (Option String)
optional_string v = or_null require_string v

unfoldable pub optional_integer : Value → Result Fault (Option ℤ)
optional_integer v = or_null require_integer v

-- `(v as T | null) ?? null`, whatever the value is
unfoldable pub cast : Value → Value
cast undefined = null
cast v = v

-- `xs.map(read)`, which stops where `read` throws
unfoldable pub each : {A : Type 0} → (Value → Result Fault A) → Items → Result Fault (List A)
each read nil = ok []
each read (cons v vs) = do a ← read v; rest ← each read vs; ok (a ∷ rest)

unfoldable pub count : Items → ℕ
count nil = 0
count (cons v vs) = suc (count vs)
