-- ===== src/RecentSearch/Fresh.antt =====
-- A search that is asked for again.
use togo.Common.{
  ℕ, ◌-◌, ◌≤◌, ◌≡◌, refl, sym, ap, ◌∙◌, String, Bool, true, false, Option, none, some, List, [],
  ◌∷◌, arith, get-put, eq_iff,
}
use togo.RecentSearch.{
  Recent, recent_ttl, recent_key, make_room, still_fresh, get_recent_search_results,
  store_recent_search_results, after_search, or_search, default_search,
}

module _ {R S : Type 0} (text_of : ℕ → String)
    (search : ℕ → Bool → Recent R × S → List R × Recent R × S) (i : ℕ) (incremental : Bool) where
  abbrev pub is_empty : List R → Bool
  is_empty [] = true
  is_empty (r ∷ results) = false

  fresh_found :
      (key : String) (later : ℕ) (e : ℕ × List R) (recent : Recent R)
      → later - e.0 ≤ recent_ttl
      → still_fresh key later recent (some e) ≡ (some e.1, recent)
  fresh_found key later (stamp, results) recent fresh = ground (arith, fresh)

  get-store :
      (results : List R) (stamp later : ℕ) (recent : Recent R)
      → is_empty results ≡ false
      → later - stamp ≤ recent_ttl
      → get_recent_search_results text_of i incremental later
          (store_recent_search_results text_of i results incremental stamp recent)
        ≡ (some results, store_recent_search_results text_of i results incremental stamp recent)
  unfolding get_recent_search_results store_recent_search_results
  get-store [] stamp later recent some_results fresh = cc
  get-store (r ∷ results) stamp later recent some_results fresh =
      let key = recent_key text_of i incremental in
      rw (get-put key key (stamp, r ∷ results) (make_room recent), (eq_iff key key).1 refl)
        (fresh_found key later (stamp, r ∷ results) _ fresh)

  searched-again :
      (answer : List R × Recent R × S) (ended later : ℕ)
      → is_empty answer.0 ≡ false
      → later - ended ≤ recent_ttl
      → let first = after_search text_of search i incremental ended answer in
        default_search text_of search i incremental later later first.1 first.2 ≡ first
  unfolding default_search
  searched-again (results, recent, state) ended later some_results fresh =
      rw (get-store results ended later recent some_results fresh) refl

  -- The cache after a look that finds nothing fresh, which lets an expired entry of the key go.
  abbrev looked_up : ℕ → Recent R → Recent R
  looked_up now recent = (get_recent_search_results text_of i incremental now recent).1

  or_search-none :
      (ended : ℕ) (state : S) (a : Option (List R) × Recent R)
      → a.0 ≡ none
      → or_search text_of search i incremental ended state a
        ≡ after_search text_of search i incremental ended (search i incremental (a.1, state))
  or_search-none ended state (none, recent) nothing = refl
  or_search-none ended state (some results, recent) nothing = cc

  first_is :
      (now ended : ℕ) (recent : Recent R) (state : S)
      → (get_recent_search_results text_of i incremental now recent).0 ≡ none
      → default_search text_of search i incremental now ended recent state
        ≡ after_search text_of search i incremental ended
            (search i incremental (looked_up now recent, state))
  unfolding default_search
  first_is now ended recent state nothing =
      or_search-none ended state (get_recent_search_results text_of i incremental now recent)
        nothing

  -- When a search was made, since the cache had none for its key or only one that is over 45 seconds
  -- old, and found something, the same search within 45 seconds of its end gives the same results, and
  -- searches and changes nothing, if nothing changed the cache meanwhile.
  pub default_search-again :
      (now ended later : ℕ) (recent : Recent R) (state : S)
      → (get_recent_search_results text_of i incremental now recent).0 ≡ none
      → is_empty (default_search text_of search i incremental now ended recent state).0 ≡ false
      → later - ended ≤ recent_ttl
      → let first = default_search text_of search i incremental now ended recent state in
        default_search text_of search i incremental later later first.1 first.2 ≡ first
  default_search-again now ended later recent state nothing some_results fresh =
      let answer = search i incremental (looked_up now recent, state) in
      let first = first_is now ended recent state nothing in
      rw first (
        searched-again answer ended later (sym (ap (λ a. is_empty a.0) first) ∙ some_results) fresh)
