-- ===== src/Vocabulary/Find.antt =====
-- Reading a text back: a search through all values, and a `switch` with a case for each value.
use mostro_ts_client.Common.{
  String, ◌≡◌, Option, none, some, List, [], ◌∷◌, ◌==◌, string_eq, if◌then◌else◌, arith,
}
use mostro_ts_client.Common.Lists.{find_first}

-- what is found has the text
pub find_first-text :
    {A : Type 0} (text : A → String) (s : String) (xs : List A) (a : A)
    → find_first (λ x. text x == s) xs ≡ some a
    → text a ≡ s
find_first-text text s [] a h = cc
find_first-text text s (x ∷ xs) a h = ground (arith, find_first-text text s xs a)

-- a result, if there is one, has `t` for its text
abbrev pub Reads : {A : Type 0} → (A → String) → String → Option A → Type 0
Reads text t o = (a : _) → o ≡ some a → t ≡ text a

pub none-Reads : {A : Type 0} (text : A → String) (t : String) → Reads text t none
none-Reads text t a h = cc

pub case-Reads :
    {A : Type 0} (text : A → String) (t : String) (x : A) {rest : Option A}
    → Reads text t rest
    → Reads text t (if t == text x then some x else rest)
case-Reads text t x r a h = ground (arith, r a)
