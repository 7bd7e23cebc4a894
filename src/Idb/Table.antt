-- ===== src/Idb/Table.antt =====
-- An object store with its key path: `get` and `put` as the source calls them.
use mostro_ts_client.Common.{
  String, Bool, ◌≡◌, Option, some, List, [], ◌∷◌, if◌then◌else◌, ◌==◌, string_eq, arith,
  String-discrete, ==_of_eq, ==_of_ne,
}
use mostro_ts_client.Common.Lists.{find_first}

module _ {A : Type 0} (key : A → String) where
  unfoldable pub get : String → List A → Option A
  get k rows = find_first (λ r. key r == k) rows

  module _ (before : String → String → Bool) where
    -- in place of the row with its key, or else before the first row with a later key
    unfoldable pub put : A → List A → List A
    put row [] = row ∷ []
    put row (r ∷ rows) =
        let rest = put row rows in
        if key r == key row
        then row ∷ rows
        else if before (key row) (key r)
        then row ∷ r ∷ rows
        else r ∷ rest

    -- The row put is read back, and every other one reads as before.
    pub get-put :
        (row : A) (k : String) (rows : List A)
        → get k (put row rows) ≡ (if key row == k then some row else get k rows)
    unfolding get put
    get-put row k [] = ground arith
    get-put row k (r ∷ rows) = ground (arith, get-put row k rows)

  -- what is read under a key has that key
  pub key-get : (k : String) (rows : List A) (r : A) → get k rows ≡ some r → key r ≡ k
  unfolding get
  key-get k [] r e = cc
  key-get k (x ∷ rows) r e = elim (String-discrete (key x) k) [
    | yes p ↦ let found = rw (==_of_eq (key x) k p) at e in cc
    | no n ↦ key-get k rows r (rw (==_of_ne (key x) k n) at e)
  ]
