-- ===== src/QueryCache/Lookup.antt =====
-- What is found in the cache after a set.
use togo.Common.{
  ℕ, ◌+◌, ◌≤◌, ◌<◌, String, ◌≡◌, refl, subst, Bool, true, false, Option, none, some, List, [], ◌∷◌,
  arith, if◌then◌else◌, leb, length, any, inl, inr, Bool-cases, le→leb, Option-cases, get, put,
  pop_all, get-put, get-pop_all, put-Unique, Unique, length-put-le, length-pop_all-le, str_eq,
  eq_iff,
}
use togo.QueryCache.{
  Cache, found, expired, max_cached, purge_expired, ttl_of, get_cached_query_results,
  set_cached_query_results,
}
use togo.QueryCache.Key.{cache_key, is_blank}

module _ {R : Type 0} where
  abbrev pub is_over : ℕ → Option (ℕ × List R) → Bool
  is_over now none = false
  is_over now (some e) = leb e.0 now

  -- The results of an entry that has not expired.
  abbrev pub fresh_results : ℕ → Option (ℕ × List R) → Option (List R)
  fresh_results now none = none
  fresh_results now (some e) = if leb e.0 now then none else some e.1

  any-expired :
      (k : String) (now : ℕ) (cache : Cache R)
      → Unique cache
      → any (str_eq k) (expired now cache) ≡ is_over now (get k cache)
  unfolding get Unique
  any-expired k now [] u = refl
  any-expired k now ((j, e) ∷ cache) u =
      ground (arith, any-expired k now cache u.1, eq_iff j k, eq_iff k j, u.0)

  over_later :
      (o : Option (ℕ × List R)) (now later : ℕ)
      → now ≤ later
      → is_over now o ≡ true
      → fresh_results later o ≡ none
  over_later none now later le h = cc
  over_later (some e) now later le h = ground arith

  -- Purging what has expired changes no later answer, while the cache is not too full.
  fresh-purge_expired :
      (k : String) (now later : ℕ) (cache : Cache R)
      → Unique cache
      → length cache ≤ max_cached
      → now ≤ later
      → fresh_results later (get k (purge_expired now cache)) ≡ fresh_results later (get k cache)
  unfolding purge_expired
  fresh-purge_expired k now later cache u small le =
      let purged = pop_all (expired now cache) cache in
      let fits =
        le→leb (length purged) max_cached
          (omega (arith, length-pop_all-le (expired now cache) cache)) in
      elim (Bool-cases (is_over now (get k cache))) [
        | inl e ↦
            rw
              (
                purge_expired,
                fits,
                get-pop_all (expired now cache) k cache,
                any-expired k now cache u,
                e,
                over_later (get k cache) now later le e,
              )
              refl
        | inr e ↦
            rw
              (
                purge_expired,
                fits,
                get-pop_all (expired now cache) k cache,
                any-expired k now cache u,
                e,
              )
              refl
      ]

  module _ (strip : String → String) where
    answer_is_fresh :
        (source query : String) (now : ℕ) (cache : Cache R)
        → (get_cached_query_results strip source query now cache).0 ≡ (
            if is_blank (cache_key strip source query)
            then none
            else fresh_results now (get (cache_key strip source query) cache))
    unfolding get_cached_query_results
    answer_is_fresh source query now cache =
        let key = cache_key strip source query in
        elim (Bool-cases (is_blank key)) [
          | inl e ↦ rw e refl
          | inr e ↦ elim (Option-cases (get key cache)) [
            | inl n ↦ rw (e, n) refl
            | inr f ↦ elim (Bool-cases (leb f.0.0 now)) [
              | inl x ↦ rw (e, f.1, found, x) refl
              | inr x ↦ rw (e, f.1, found, x) refl
            ]
          ]
        ]

    -- While fewer than 512 entries are there, a set changes later answers for its own key alone: there
    -- its results are found for 45 seconds if there are none and for three minutes otherwise, and
    -- what is found under any other key stays as it was, although a set purges. No blank key is set.
    pub get-set_cached_query_results :
        (source query source' query' : String) (results : List R) (now later : ℕ) (cache : Cache R)
        → Unique cache
        → length cache < max_cached
        → now ≤ later
        → is_blank (cache_key strip source query) ≡ false
        → (get_cached_query_results strip source' query' later
            (set_cached_query_results strip source query results now cache)).0
          ≡ (if str_eq (cache_key strip source query) (cache_key strip source' query')
              then (if leb (now + ttl_of results) later then none else some results)
              else (get_cached_query_results strip source' query' later cache).0)
    unfolding set_cached_query_results
    get-set_cached_query_results source query source' query' results now later cache u small le
          named =
        let k = cache_key strip source query in
        let k' = cache_key strip source' query' in
        let entry : ℕ × List R = (now + ttl_of results, results) in
        let kept =
          fresh-purge_expired k' now later (put k entry cache) (put-Unique k entry cache u)
            (omega (arith, length-put-le k entry cache)) le in
        rw
          (
            answer_is_fresh source' query' later
                (set_cached_query_results strip source query results now cache),
            answer_is_fresh source' query' later cache,
            set_cached_query_results,
            named,
            kept,
            get-put k k' entry cache,
          )
          (elim (Bool-cases (str_eq k k')) [
            | inr e ↦ rw e refl
            | inl e ↦ rw (e, subst (λ j. is_blank j ≡ false) ((eq_iff k k').0 e) named) refl
          ])
