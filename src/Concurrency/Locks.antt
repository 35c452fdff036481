-- ===== src/Concurrency/Locks.antt =====
-- A lock that a task holds is never dropped from the registry.
use togo.Common.{
  ℕ, String, ◌≡◌, refl, ◌∙◌, subst, true, false, Option, none, some, [], ◌∷◌, arith, leb, any, inl,
  inr, Bool-cases, length, str_eq, eq_iff, or_text, Dict, get, get-put, get-pop_all, Unique,
  put-Unique, pop_all-Unique, ==_refl,
}
use togo.Concurrency.{
  Lock, Registry, max_locks, stale_keys, evict_stale_locks, same_loop, lock_in,
  telegram_source_lock,
}

stale_keys-absent :
    (k : String) (d : Dict Lock) → get k d ≡ none → any (str_eq k) (stale_keys d) ≡ false
unfolding get
stale_keys-absent k [] e = refl
stale_keys-absent k ((j, l) ∷ d) e = ground (arith, eq_iff k j, eq_iff j k, stale_keys-absent k d)

stale_keys-held :
    (k : String) (d : Dict Lock) (l : Lock)
    → Unique d
    → get k d ≡ some l
    → l.locked ≡ true
    → any (str_eq k) (stale_keys d) ≡ false
unfolding get Unique
stale_keys-held k [] l u e h = cc
stale_keys-held k ((j, m) ∷ d) l u e h = elim (Bool-cases (str_eq j k)) [
  | inl same ↦
      ground (arith, stale_keys-absent k d (subst (λ i. get i d ≡ none) ((eq_iff j k).0 same) u.0))
  | inr differ ↦
      ground (arith, eq_iff k j, eq_iff j k, stale_keys-held k d l u.1 (rw differ at e) h)
]

get-evict_stale_locks :
    (k : String) (d : Dict Lock) (l : Lock)
    → Unique d
    → get k d ≡ some l
    → l.locked ≡ true
    → get k (evict_stale_locks d) ≡ some l
unfolding evict_stale_locks
get-evict_stale_locks k d l u e h =
    ground (arith, get-pop_all (stale_keys d) k d, stale_keys-held k d l u e h)

absent :
    (other key : String) (locks : Dict Lock) (l : Lock)
    → get other locks ≡ none
    → get key locks ≡ some l
    → str_eq other key ≡ false
absent other key locks l p e = elim (Bool-cases (str_eq other key)) [
  | inl same ↦ cc (subst (λ i. get i locks ≡ none) ((eq_iff other key).0 same) p)
  | inr differ ↦ differ
]

get-lock_in :
    (other key : String) (loop : ℕ) (locks : Dict Lock) (next : ℕ) (l : Lock)
    → get key locks ≡ some l
    → get key (lock_in other loop locks next).1.locks ≡ some l
get-lock_in other key loop locks next l e = go (get other locks) refl
  where
    go :
        (o : Option Lock)
        → get other locks ≡ o
        → get key (lock_in other loop locks next).1.locks ≡ some l
    go none p =
        rw (p, lock_in)
          (get-put other key _ locks
            ∙ ground (arith, eq_iff other key, absent other key locks l p e))
    go (some m) p = rw (p, lock_in) e

same_loop-true : (loop : ℕ) (r : Registry) → r.loop ≡ some loop → same_loop r.loop loop ≡ true
same_loop-true loop r on = ground (arith, ==_refl loop)

-- While a task holds the lock of a source, each request on the same event loop, for whatever
-- source, leaves that lock in the registry, and a request for this source returns it.
pub telegram_source_lock-held :
    (k other : String) (loop : ℕ) (r : Registry) (l : Lock)
    → Unique r.locks
    → r.loop ≡ some loop
    → get (or_text k "_unknown_") r.locks ≡ some l
    → l.locked ≡ true
    → (get (or_text k "_unknown_") (telegram_source_lock other loop r).1.locks ≡ some l)
      × ((telegram_source_lock k loop r).0 ≡ l)
unfolding telegram_source_lock
telegram_source_lock-held k other loop r l u on e h =
    let kept = get-evict_stale_locks (or_text k "_unknown_") r.locks l u e h in
    rw (same_loop-true loop r on, telegram_source_lock)
      (
        get-lock_in (or_text other "_unknown_") (or_text k "_unknown_") loop
            (evict_stale_locks r.locks) r.next l kept,
        rw (kept, lock_in),
      )

evict_stale_locks-Unique : (d : Dict Lock) → Unique d → Unique (evict_stale_locks d)
unfolding evict_stale_locks
evict_stale_locks-Unique d u = elim (Bool-cases (leb (length d) max_locks)) [
  | inl e ↦ rw (e, evict_stale_locks) u
  | inr e ↦ rw (e, evict_stale_locks) (pop_all-Unique (stale_keys d) d u)
]

lock_in-Unique :
    (key : String) (loop : ℕ) (locks : Dict Lock) (next : ℕ)
    → Unique locks
    → Unique (lock_in key loop locks next).1.locks
lock_in-Unique key loop locks next u = go (get key locks) refl
  where
    go : (o : Option Lock) → get key locks ≡ o → Unique (lock_in key loop locks next).1.locks
    go none e = rw (e, lock_in) (put-Unique key _ locks u)
    go (some l) e = rw (e, lock_in) u

-- No source has two locks, after any requests on any event loops.
pub telegram_source_lock-Unique :
    (source : String) (loop : ℕ) (r : Registry)
    → Unique r.locks
    → Unique (telegram_source_lock source loop r).1.locks
unfolding telegram_source_lock Unique
telegram_source_lock-Unique source loop r u = elim (Bool-cases (same_loop r.loop loop)) [
  | inl e ↦
      rw (e, telegram_source_lock)
        (lock_in-Unique (or_text source "_unknown_") loop (evict_stale_locks r.locks) r.next
          (evict_stale_locks-Unique r.locks u))
  | inr e ↦
      rw (e, telegram_source_lock)
        (lock_in-Unique (or_text source "_unknown_") loop (evict_stale_locks []) r.next
          (evict_stale_locks-Unique [] tt))
]
