-- ===== src/MostroInfo/Selection.antt =====
-- Which announcement is taken for the instance's own.
use mostro_ts_client.Common.{
  String, Bool, true, false, ◌≡◌, refl, none, some, List, [], ◌∷◌, Bool-cases, inl, inr, arith,
}
use mathlib.Core.Path.{subst}
use mathlib.Core.List.{Memᴰ}
use mostro_ts_client.Common.Lists.{All, keep, map-All}
use mostro_ts_client.Common.Sort.{sort_by, IsSorted, sort-IsSorted, All-sort, All-of_sort}
use mostro_ts_client.Common.Int.{◌≤ℤ◌, le_of_ltb_false}
use mostro_ts_client.MostroInfo.{
  InfoEvent, instance_info_event_is_authentic, newer_event, first_event,
  select_authentic_instance_info_event,
}

newer_asymmetric : (x y : InfoEvent) → newer_event x y ≡ true → newer_event y x ≡ false
newer_asymmetric x y h = ground arith

newer_transitive :
    (x y z : InfoEvent)
    → newer_event x y ≡ false
    → newer_event y z ≡ false
    → newer_event x z ≡ false
newer_transitive x y z h k = ground arith

module _ (mostro_pubkey : String) where
  abbrev authentic : InfoEvent → Bool
  authentic e = instance_info_event_is_authentic e mostro_pubkey

  -- an authentic event of the list
  abbrev Chosen : List InfoEvent → InfoEvent → Type 0
  Chosen events e = Memᴰ e events × (authentic e ≡ true)

  kept_Chosen : (events : List InfoEvent) → All (Chosen events) (keep authentic events)
  kept_Chosen [] = tt
  kept_Chosen (e ∷ es) =
      let rest = map-All (λ e' (m, a). (Memᴰ.tail m, a)) (keep authentic es) (kept_Chosen es) in
      elim (Bool-cases (authentic e)) [
        | inl y ↦ rw y ((Memᴰ.head refl, y), rest)
        | inr n ↦ rw n rest
      ]

  -- what holds of the kept events, of every authentic event
  authentic-All :
      (P : InfoEvent → Type 0) (events : List InfoEvent)
      → All P (keep authentic events)
      → All (λ e. authentic e ≡ true → P e) events
  authentic-All P [] h = tt
  authentic-All P (e ∷ es) h = elim (Bool-cases (authentic e)) [
    | inl y ↦
        let (p, ps) : P e × All P (keep authentic es) = rw y at h in (λ _. p, authentic-All P es ps)
    | inr n ↦ (λ y. absurd (cc), authentic-All P es (rw n at h))
  ]

  newest_of_sorted :
      (es : List InfoEvent) (e : InfoEvent)
      → IsSorted newer_event es
      → first_event es ≡ some e
      → All (λ e'. e'.created_at ≤ℤ e.created_at) es
  unfolding IsSorted
  newest_of_sorted [] e sorted h = tt
  newest_of_sorted (x ∷ xs) e (ahead, sorted) h =
      let same : x ≡ e = cc in
      subst (λ (newest : InfoEvent). All (λ e'. e'.created_at ≤ℤ newest.created_at) (x ∷ xs)) same
        (
          ground arith,
          map-All (λ e' later. le_of_ltb_false e'.created_at x.created_at later) xs ahead,
        )

  first_of_All :
      (P : InfoEvent → Type 0) (es : List InfoEvent) (e : InfoEvent)
      → All P es
      → first_event es ≡ some e
      → P e
  first_of_All P [] e all h = absurd (cc)
  first_of_All P (x ∷ xs) e (px, all) h = let same : x ≡ e = cc in rw (← same) px

  none-All : (P : InfoEvent → Type 0) (es : List InfoEvent) → first_event es ≡ none → All P es
  none-All P [] h = tt
  none-All P (x ∷ xs) h = absurd (cc)

  -- An announcement that is selected is one of the events, is authentic, and no authentic event is newer; none is
  -- selected only where no event is authentic.
  pub select_newest_authentic :
      (events : List InfoEvent)
      → ((e : InfoEvent)
          → select_authentic_instance_info_event events mostro_pubkey ≡ some e
          → Memᴰ e events
            × (instance_info_event_is_authentic e mostro_pubkey ≡ true)
            × All
                (λ e'.
                  instance_info_event_is_authentic e' mostro_pubkey ≡ true
                  → e'.created_at ≤ℤ e.created_at)
                events)
        × (select_authentic_instance_info_event events mostro_pubkey ≡ none
            → All (λ e'. ¬ (instance_info_event_is_authentic e' mostro_pubkey ≡ true)) events)
  unfolding select_authentic_instance_info_event
  select_newest_authentic events =
      let chosen = keep authentic events in
      let sorted = sort-IsSorted newer_event newer_asymmetric newer_transitive chosen in
      (
        λ e h.
            let (m, a) =
              first_of_All (Chosen events) (sort_by newer_event chosen) e
                (All-sort newer_event (Chosen events) chosen (kept_Chosen events)) h in
            (
              m,
              a,
              authentic-All (λ e'. e'.created_at ≤ℤ e.created_at) events
                  (All-of_sort newer_event (λ e'. e'.created_at ≤ℤ e.created_at) chosen
                    (newest_of_sorted (sort_by newer_event chosen) e sorted h)),
            ),
        λ h.
            authentic-All (λ e'. ⊥) events
              (All-of_sort newer_event (λ e'. ⊥) chosen
                (none-All (λ e'. ⊥) (sort_by newer_event chosen) h)),
      )
