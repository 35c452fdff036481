-- ===== src/Budget/Cache.antt =====
-- The two answer caches: their size, and how long an answer is kept.
use native.Mathlib.Nat.{le_trans}
use togo.Common.{
  Bool-cases, inl, inr, leb-lt, ℕ, ◌+◌, ◌≤◌, ◌<◌, String, ◌≡◌, none, some, arith, leb, ltb,
  if◌then◌else◌, length, take, get, get-put, text_refl, length-put-le, length-pop_all-le,
  length-pop_all-take,
}
use togo.Budget.{
  Store, cache_max, sweep, cache_get, cache_set, expired_keys, drop_expired, drop_oldest,
}

module _ {V : Type 0} where
  length-drop_oldest :
      (store : Store V) → length store ≤ cache_max → length (drop_oldest store) < cache_max
  length-drop_oldest store h = ground (arith, length-pop_all-take sweep store)

  -- Setting a key keeps a cache at 256 pairs at most, whatever is in it and however full it is.
  pub length-cache_set :
      (ttl : ℕ) (key : String) (value : V) (now : ℕ) (store : Store V)
      → length store ≤ cache_max
      → length (cache_set ttl key value now store) ≤ cache_max
  unfolding cache_set
  length-cache_set ttl key value now store h =
      let swept = drop_expired now store in
      elim (Bool-cases (leb cache_max (length store))) [
        | inl full ↦
            rw (full, cache_set)
              (omega (
                arith,
                length-put-le key (now + ttl, value) (drop_oldest swept),
                length-drop_oldest swept
                    (le_trans (length-pop_all-le (expired_keys now (take sweep store)) store) h),
              ))
        | inr free ↦
            rw (free, cache_set)
              (omega (arith, length-put-le key (now + ttl, value) store, leb-lt _ _ free))
      ]

  get-cache_set :
      (ttl : ℕ) (key : String) (value : V) (now : ℕ) (store : Store V)
      → get key (cache_set ttl key value now store) ≡ some (now + ttl, value)
  unfolding cache_set
  get-cache_set ttl key value now store = rw (get-put, text_refl key)

  -- An answer that was set is returned until its time has passed, and is not returned from then on.
  pub cache_get-cache_set :
      (ttl : ℕ) (key : String) (value : V) (now later : ℕ) (store : Store V)
      → (cache_get key later (cache_set ttl key value now store)).0
        ≡ (if ltb later (now + ttl) then some value else none)
  unfolding cache_get
  cache_get-cache_set ttl key value now later store =
      rw (get-cache_set ttl key value now store, cache_get) (ground arith)
