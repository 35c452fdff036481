-- ===== src/Scheduling/Kept.antt =====
-- Which subscriptions are kept for a search of all, and in what order.
use togo.Common.{
  ℕ, ◌-◌, ◌≤◌, ◌≡◌, refl, ◌∙◌, String, Bool, true, false, not, ◌&&◌, Option, some, List, [], ◌∷◌,
  arith, inl, inr, Bool-cases, leb, count_where, select,
}
use togo.Episodes.{tv, movie, Media, Subscription, is_none, missing_episode_keys}
use togo.Scheduling.Recent.{
  Listed, active_cooldown, should_skip_recent_search_all, urgency, searched_before, insert_listed,
  prioritize_subscriptions_for_search, filter_subscriptions_for_search_all, caught_up,
}

module _ (fullmatch : String → Option (ℕ × ℕ)) where
  -- Each is at least as urgent as the next.
  abbrev pub is_falling : List Listed → Bool
  is_falling [] = true
  is_falling (s ∷ []) = true
  is_falling (s ∷ r ∷ listed) =
      leb (urgency fullmatch r) (urgency fullmatch s) && is_falling (r ∷ listed)

  count-insert :
      (p : Listed → Bool) (s : Listed) (listed : List Listed)
      → count_where p (insert_listed fullmatch s listed) ≡ count_where p (s ∷ listed)
  count-insert p s [] = refl
  count-insert p s (r ∷ listed) = ground (arith, count-insert p s listed)

  count-prioritize :
      (p : Listed → Bool) (listed : List Listed)
      → count_where p (prioritize_subscriptions_for_search fullmatch listed) ≡ count_where p listed
  unfolding prioritize_subscriptions_for_search
  count-prioritize p [] = refl
  count-prioritize p (s ∷ listed) =
      count-insert p s (prioritize_subscriptions_for_search fullmatch listed)
      ∙ ground (arith, count-prioritize p listed)

  count-select :
      (p q : Listed → Bool) (listed : List Listed)
      → count_where p (select q listed) ≡ count_where (λ s. q s && p s) listed
  count-select p q [] = refl
  count-select p q (s ∷ listed) = ground (arith, count-select p q listed)

  before-urgency :
      (x s : Listed)
      → searched_before fullmatch x s ≡ true
      → urgency fullmatch s ≤ urgency fullmatch x
  before-urgency x s e = ground (arith, e)

  after-urgency :
      (x s : Listed)
      → searched_before fullmatch x s ≡ false
      → urgency fullmatch x ≤ urgency fullmatch s
  after-urgency x s e = ground (arith, e)

  insert-is_falling :
      (s r : Listed) (listed : List Listed)
      → urgency fullmatch s ≤ urgency fullmatch r
      → is_falling (r ∷ listed) ≡ true
      → is_falling (r ∷ insert_listed fullmatch s listed) ≡ true
  insert-is_falling s r [] le h = ground arith
  insert-is_falling s r (x ∷ listed) le h = elim (Bool-cases (searched_before fullmatch x s)) [
    | inl e ↦ rw e (ground (arith, h, insert-is_falling s x listed (before-urgency x s e)))
    | inr e ↦ rw e (ground (arith, h, le, after-urgency x s e))
  ]

  insert_first-is_falling :
      (s : Listed) (listed : List Listed)
      → is_falling listed ≡ true
      → is_falling (insert_listed fullmatch s listed) ≡ true
  insert_first-is_falling s [] h = refl
  insert_first-is_falling s (x ∷ listed) h = elim (Bool-cases (searched_before fullmatch x s)) [
    | inl e ↦ rw e (insert-is_falling s x listed (before-urgency x s e) h)
    | inr e ↦ rw e (ground (arith, h, after-urgency x s e))
  ]

  prioritize-is_falling :
      (listed : List Listed)
      → is_falling (prioritize_subscriptions_for_search fullmatch listed) ≡ true
  unfolding prioritize_subscriptions_for_search
  prioritize-is_falling [] = refl
  prioritize-is_falling (s ∷ listed) =
      insert_first-is_falling s (prioritize_subscriptions_for_search fullmatch listed)
        (prioritize-is_falling listed)

  -- What is kept are exactly the subscriptions that are not skipped, each as often as it was there, and
  -- more urgent ones come first.
  pub filter_subscriptions_for_search_all-kept :
      (now : ℕ) (p : Listed → Bool) (listed : List Listed)
      → let (kept, skipped) = filter_subscriptions_for_search_all fullmatch now listed in
        (count_where p kept
          ≡ count_where (λ s. not (should_skip_recent_search_all fullmatch now s) && p s) listed)
        × (is_falling kept ≡ true)
  unfolding filter_subscriptions_for_search_all
  filter_subscriptions_for_search_all-kept now p listed =
      let searched = λ (s : Listed). not (should_skip_recent_search_all fullmatch now s) in
      (
        count-prioritize p (select searched listed) ∙ count-select p searched listed,
        prioritize-is_falling (select searched listed),
      )

  missing-kept :
      (media : Media) (s : Subscription)
      → media ≡ tv
      → is_none (missing_episode_keys fullmatch s) ≡ false
      → caught_up fullmatch media s ≡ false
  missing-kept movie s is open_ones = cc
  missing-kept tv s is open_ones = ground (arith, open_ones)

  -- A series that has a missing episode is not skipped once two minutes have gone since it was checked.
  pub should_skip_recent_search_all-missing :
      (now t : ℕ) (s : Listed)
      → s.base.media_type ≡ tv
      → is_none (missing_episode_keys fullmatch s.base) ≡ false
      → s.last_checked ≡ some t
      → active_cooldown ≤ now - t
      → should_skip_recent_search_all fullmatch now s ≡ false
  unfolding should_skip_recent_search_all
  should_skip_recent_search_all-missing now t s series open_ones checked later =
      rw checked (ground (arith, later, missing-kept s.base.media_type s.base series open_ones))
