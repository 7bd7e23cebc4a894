-- ===== src/Common/Sort.antt =====
-- `xs.sort(…)`, stable, for a comparison by a key: `earlier x y` when x belongs strictly before y.
use mathlib.Core.Path.{◌≡◌}
use mathlib.Core.Bool.{Bool, true, false}
use mathlib.Core.Logic.{◌⊎◌, inl, inr}
use mathlib.Core.List.{List, [], ◌∷◌, Perm, Memᴰ}
use mathlib.Core.List.Perm
use mostro_ts_client.Common.Tests.{if◌then◌else◌, Bool-cases}
use mostro_ts_client.Common.Lists.{All}

module _ {A : Type 0} (earlier : A → A → Bool) where
  -- before the first element that does not belong strictly before it
  unfoldable pub insert_by : A → List A → List A
  insert_by a [] = a ∷ []
  insert_by a (x ∷ xs) = let rest = insert_by a xs in if earlier x a then x ∷ rest else a ∷ x ∷ xs

  unfoldable pub sort_by : List A → List A
  unfolding insert_by
  sort_by [] = []
  sort_by (a ∷ xs) = insert_by a (sort_by xs)

  -- no element belongs strictly before one that stands ahead of it
  unfoldable pub IsSorted : List A → Type 0
  IsSorted [] = Unit
  IsSorted (x ∷ xs) = All (λ y. earlier y x ≡ false) xs × IsSorted xs

  insert-Perm : (a : A) (xs : List A) → Perm (insert_by a xs) (a ∷ xs)
  unfolding insert_by
  insert-Perm a [] = Perm.refl (a ∷ [])
  insert-Perm a (x ∷ xs) = elim (Bool-cases (earlier x a)) [
    | inl e ↦ rw e (Perm.trans (Perm.cons x (insert-Perm a xs)) (Perm.swap a x xs))
    | inr e ↦ rw e (Perm.refl (a ∷ x ∷ xs))
  ]

  -- Sorting keeps every element, with its multiplicity.
  pub sort-Perm : (xs : List A) → Perm (sort_by xs) xs
  unfolding sort_by
  sort-Perm [] = Perm.refl []
  sort-Perm (a ∷ xs) = Perm.trans (insert-Perm a (sort_by xs)) (Perm.cons a (sort-Perm xs))

  -- what holds of every element, before and after sorting
  All-of_insert : (P : A → Type 0) (a : A) (xs : List A) → All P (insert_by a xs) → P a × All P xs
  unfolding insert_by
  All-of_insert P a [] (pa, all) = (pa, tt)
  All-of_insert P a (x ∷ xs) all = elim (Bool-cases (earlier x a)) [
    | inl e ↦
        let (px, rest) : P x × All P (insert_by a xs) = rw e at all in
        let (pa, pxs) = All-of_insert P a xs rest in (pa, (px, pxs))
    | inr e ↦ rw e at all
  ]

  pub All-of_sort : (P : A → Type 0) (xs : List A) → All P (sort_by xs) → All P xs
  unfolding sort_by
  All-of_sort P [] all = tt
  All-of_sort P (a ∷ xs) all =
      let (pa, rest) = All-of_insert P a (sort_by xs) all in (pa, All-of_sort P xs rest)

  All-inserted : (P : A → Type 0) (a : A) (xs : List A) → P a → All P xs → All P (insert_by a xs)
  unfolding insert_by
  All-inserted P a [] pa all = (pa, tt)
  All-inserted P a (x ∷ xs) pa (px, all) = elim (Bool-cases (earlier x a)) [
    | inl e ↦ rw e (px, All-inserted P a xs pa all)
    | inr e ↦ rw e (pa, (px, all))
  ]

  pub All-sort : (P : A → Type 0) (xs : List A) → All P xs → All P (sort_by xs)
  unfolding sort_by
  All-sort P [] all = tt
  All-sort P (a ∷ xs) (pa, all) = All-inserted P a (sort_by xs) pa (All-sort P xs all)

  Memᴰ-insert : (b a : A) (xs : List A) → (b ≡ a) ⊎ Memᴰ b xs → Memᴰ b (insert_by a xs)
  unfolding insert_by
  Memᴰ-insert b a [] (inl e) = Memᴰ.head e
  Memᴰ-insert b a (x ∷ xs) (inl p) = elim (Bool-cases (earlier x a)) [
    | inl e ↦ rw e (Memᴰ.tail (Memᴰ-insert b a xs (inl p)))
    | inr e ↦ rw e (Memᴰ.head p)
  ]
  Memᴰ-insert b a (x ∷ xs) (inr (Memᴰ.head p)) = elim (Bool-cases (earlier x a)) [
    | inl e ↦ rw e (Memᴰ.head p)
    | inr e ↦ rw e (Memᴰ.tail (Memᴰ.head p))
  ]
  Memᴰ-insert b a (x ∷ xs) (inr (Memᴰ.tail m)) = elim (Bool-cases (earlier x a)) [
    | inl e ↦ rw e (Memᴰ.tail (Memᴰ-insert b a xs (inr m)))
    | inr e ↦ rw e (Memᴰ.tail (Memᴰ.tail m))
  ]
  Memᴰ-insert b a [] (inr m) = elim m [ ]

  -- Sorting loses nothing.
  pub Memᴰ-sort : (b : A) (xs : List A) → Memᴰ b xs → Memᴰ b (sort_by xs)
  unfolding sort_by
  Memᴰ-sort b [] m = elim m [ ]
  Memᴰ-sort b (a ∷ xs) (Memᴰ.head e) = Memᴰ-insert b a (sort_by xs) (inl e)
  Memᴰ-sort b (a ∷ xs) (Memᴰ.tail m) = Memᴰ-insert b a (sort_by xs) (inr (Memᴰ-sort b xs m))

  module _ (asymmetric : (x y : A) → earlier x y ≡ true → earlier y x ≡ false)
      (transitive : (x y z : A)
        → earlier x y ≡ false
        → earlier y z ≡ false
        → earlier x z ≡ false) where
    All-later :
        (a x : A) (xs : List A)
        → earlier x a ≡ false
        → All (λ y. earlier y x ≡ false) xs
        → All (λ y. earlier y a ≡ false) xs
    All-later a x [] e all = tt
    All-later a x (y ∷ xs) e (h, all) = (transitive y x a h e, All-later a x xs e all)

    insert-IsSorted : (a : A) (xs : List A) → IsSorted xs → IsSorted (insert_by a xs)
    unfolding insert_by IsSorted
    insert-IsSorted a [] sorted = (tt, tt)
    insert-IsSorted a (x ∷ xs) (ahead, sorted) = elim (Bool-cases (earlier x a)) [
      | inl e ↦ rw e (
        All-inserted (λ y. earlier y x ≡ false) a xs (asymmetric x a e) ahead,
        insert-IsSorted a xs sorted,
      )
      | inr e ↦ rw e ((e, All-later a x xs e ahead), (ahead, sorted))
    ]

    -- Sorting sorts.
    pub sort-IsSorted : (xs : List A) → IsSorted (sort_by xs)
    unfolding sort_by IsSorted
    sort-IsSorted [] = tt
    sort-IsSorted (a ∷ xs) = insert-IsSorted a (sort_by xs) (sort-IsSorted xs)
