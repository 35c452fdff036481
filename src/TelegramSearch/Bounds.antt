-- ===== src/TelegramSearch/Bounds.antt =====
-- The state stays small, and the bucket of a source is one that the state has.
use togo.Common.{
  ℕ, zero, suc, ◌+◌, ◌/◌, ◌≤◌, ◌≡◌, refl, sym, subst, String, true, false, Option, none, some, List,
  [], ◌∷◌, ◌++◌, arith, if◌then◌else◌, inl, inr, Bool-cases, leb, ◌==◌, ◌||◌, length, length-append,
  take, any, max, add, ℕ_equal, Dict, get, put, keys, length-put-le, length-pop_all-take,
  get-pop_all, get-put, text_refl, str_eq, eq_iff,
}
use togo.Matching.{Result}
use togo.QueryCache.Key.{cache_key}
use togo.TelegramSearch.{
  Hit, SharedState, new_state, max_urls, max_sources, max_messages, max_queries, max_scores,
  evict_oldest, score_of, bucket_or_new, seen_messages_for, see_message, note_dialog_hits,
  note_message, see_url, remember_one, remember_results, prefer, preferred_of, origin_of,
  set_preferred_sources_from_results, set_cached_query_dialog_results,
}

length-evict_oldest :
    {V : Type 0} (d : Dict V) (n : ℕ) → length d ≤ n + 1 → length (evict_oldest d n) ≤ n
unfolding evict_oldest
length-evict_oldest d n h = ground (arith, h, length-pop_all-take (max 1 (length d / 5)) d)

length-evict-put :
    {V : Type 0} (k : String) (v : V) (d : Dict V) (n : ℕ)
    → length d ≤ n
    → length (evict_oldest (put k v d) n) ≤ n
length-evict-put k v d n h =
    length-evict_oldest (put k v d) n (omega (arith, h, length-put-le k v d))

put-new :
    {V : Type 0} (k : String) (v : V) (d : Dict V) → get k d ≡ none → put k v d ≡ d ++ (k, v) ∷ []
unfolding put get
put-new k v [] h = refl
put-new k v ((j, w) ∷ d) h = ground (arith, h, put-new k v d)

too_many : (n : ℕ) → suc n ≤ 0 → ⊥
too_many n h = omega (arith, h)

any-keys-take :
    {V : Type 0} (k : String) (n : ℕ) (d e : Dict V)
    → get k d ≡ none
    → n ≤ length d
    → any (str_eq k) (keys (take n (d ++ e))) ≡ false
unfolding get
any-keys-take k zero d e h le = refl
any-keys-take k (suc n) [] e h le = absurd (too_many n le)
any-keys-take k (suc n) ((j, w) ∷ d) e h le =
    ground (arith, h, le, eq_iff j k, eq_iff k j, any-keys-take k n d e)

length-put-known :
    {V : Type 0} (k : String) (v w : V) (d : Dict V)
    → get k d ≡ some w
    → length (put k v d) ≡ length d
unfolding put get
length-put-known k v w [] h = cc
length-put-known k v w ((j, u) ∷ d) h = ground (arith, length-put-known k v w d)

-- The newest key stays.
get-evict-new :
    {V : Type 0} (k : String) (v : V) (d : Dict V) (n : ℕ)
    → get k d ≡ none
    → 1 ≤ n
    → get k (evict_oldest (put k v d) n) ≡ some v
unfolding evict_oldest
get-evict-new k v d n h one =
    let d2 = put k v d in
    let there : get k d2 ≡ some v = rw (get-put k k v d, text_refl k) refl in
    let long : length d2 ≡ length d + 1 = rw (put-new k v d h) (length-append d ((k, v) ∷ [])) in
    elim (Bool-cases (leb (length d2) n)) [
      | inl e ↦ rw e there
      | inr e ↦
          let size = max 1 (length d2 / 5) in
          let few : size ≤ length d = ground (arith, e, long, one) in
          let others : any (str_eq k) (keys (take size d2)) ≡ false =
            subst (λ x. any (str_eq k) (keys (take size x)) ≡ false) (sym (put-new k v d h))
              (any-keys-take k size d ((k, v) ∷ []) h few) in
          rw (e, get-pop_all (keys (take size d2)) k d2, others) there
    ]

bucket_or_new-get :
    (key : String) (s : SharedState) (o : Option (List ℕ))
    → get key s.seen_message_ids ≡ o
    → get key (bucket_or_new key s o).1.seen_message_ids ≡ some (bucket_or_new key s o).0
bucket_or_new-get key s (some bucket) h = h
bucket_or_new-get key s none h = get-evict-new key [] s.seen_message_ids max_sources h (omega arith)

-- The bucket that a caller is given is the one that the state has for the source, also where the state
-- was full and let the oldest sources go.
pub get-seen_messages_for :
    (key : String) (s : SharedState)
    → get key (seen_messages_for key s).1.seen_message_ids ≡ some (seen_messages_for key s).0
unfolding seen_messages_for
get-seen_messages_for key s = bucket_or_new-get key s (get key s.seen_message_ids) refl

-- The sizes that the constants of the file give.
abbrev pub IsBounded : SharedState → Type 0
IsBounded s =
    (length s.seen_urls ≤ max_urls)
    × (length s.seen_message_ids ≤ max_sources)
    × (length s.dialog_hit_scores ≤ max_scores)
    × (length s.query_dialog_cache ≤ max_queries)

bucket_or_new-IsBounded :
    (key : String) (s : SharedState) (o : Option (List ℕ))
    → IsBounded s
    → IsBounded (bucket_or_new key s o).1
bucket_or_new-IsBounded key s (some bucket) h = h
bucket_or_new-IsBounded key s none (urls, ids, scores, queries) =
    (urls, length-evict-put key [] s.seen_message_ids max_sources ids, scores, queries)

seen_messages_for-IsBounded :
    (key : String) (s : SharedState) → IsBounded s → IsBounded (seen_messages_for key s).1
unfolding seen_messages_for
seen_messages_for-IsBounded key s h = bucket_or_new-IsBounded key s (get key s.seen_message_ids) h

see_message-IsBounded :
    (key : String) (m : ℕ) (s : SharedState) → IsBounded s → IsBounded (see_message key m s)
unfolding see_message
see_message-IsBounded key m s h =
    let (bucket, t) = seen_messages_for key s in
    let (urls, ids, scores, queries) = seen_messages_for-IsBounded key s h in
    let same =
      length-put-known key (add m (if leb max_messages (length bucket) then [] else bucket)) bucket
        t.seen_message_ids (get-seen_messages_for key s) in
    (urls, omega (arith, ids, same), scores, queries)

note_dialog_hits-IsBounded :
    (strip : String → String) (source : String) (count : ℕ) (s : SharedState)
    → IsBounded s
    → IsBounded (note_dialog_hits strip source count s)
unfolding note_dialog_hits
note_dialog_hits-IsBounded strip source count s (urls, ids, scores, queries) =
    elim (Bool-cases (str_eq (strip source) "" || count == 0)) [
      | inl e ↦ rw e (urls, ids, scores, queries)
      | inr e ↦ rw e (
        urls,
        ids,
        length-evict-put (strip source) (score_of (get (strip source) s.dialog_hit_scores) + count)
            s.dialog_hit_scores max_scores scores,
        queries,
      )
    ]

-- What the searches do with the state. They may see any messages of a source, and the full search
-- may begin with nothing seen and with sources that are asked although an index has them.
pub data Operation : Type 0 where
  remember prefer_from : List Hit → Operation
  see : String → ℕ → Operation
  note_hits : String → ℕ → Operation
  cache : String → String → List Result → Operation
  forget ask_sources : Operation

module _ (strip : String → String) where
  note_message-IsBounded :
      (h : Hit) (s : SharedState) → IsBounded s → IsBounded (note_message strip h s)
  note_message-IsBounded h s b =
      elim (Bool-cases (h.message_id == 0 || str_eq (origin_of strip h.result) "")) [
        | inl e ↦ rw e b
        | inr e ↦ rw e (see_message-IsBounded (origin_of strip h.result) h.message_id s b)
      ]

  see_url-IsBounded :
      (url : String) (s : SharedState) → IsBounded s → IsBounded (see_url strip url s)
  see_url-IsBounded url s (urls, ids, scores, queries) =
      (ground (arith, urls), ids, scores, queries)

  remember_one-IsBounded :
      (h : Hit) (s : SharedState) → IsBounded s → IsBounded (remember_one strip h s).1
  remember_one-IsBounded h s b = elim (Bool-cases (str_eq h.result.url "")) [
    | inl e ↦ rw e b
    | inr e ↦ elim (Bool-cases (any (λ url. str_eq url h.result.url) s.seen_urls)) [
      | inl f ↦ rw (e, f) b
      | inr f ↦
          rw (e, f)
            (note_message-IsBounded h (see_url strip h.result.url s)
              (see_url-IsBounded h.result.url s b))
    ]
  ]

  remember_results-IsBounded :
      (results : List Hit) (s : SharedState)
      → IsBounded s
      → IsBounded (remember_results strip results s).1
  unfolding remember_results
  remember_results-IsBounded [] s b = b
  remember_results-IsBounded (h ∷ results) s b =
      remember_results-IsBounded results (remember_one strip h s).1 (remember_one-IsBounded h s b)

  prefer-IsBounded :
      (preferred : List String) (s : SharedState)
      → IsBounded s
      → IsBounded (prefer strip preferred s)
  prefer-IsBounded [] s b = b
  prefer-IsBounded (o ∷ preferred) s b = b

  abbrev pub apply : Operation → SharedState → SharedState
  apply (remember results) s = (remember_results strip results s).1
  apply (prefer_from results) s = set_preferred_sources_from_results strip results s
  apply (see key m) s = see_message key m s
  apply (note_hits source count) s = note_dialog_hits strip source count s
  apply (cache source query results) s =
      set_cached_query_dialog_results strip source query results s
  apply forget s = record s { seen_message_ids = []; seen_urls = [] }
  apply ask_sources s = record s { force_remote = true }

  apply-IsBounded : (o : Operation) (s : SharedState) → IsBounded s → IsBounded (apply o s)
  unfolding set_preferred_sources_from_results set_cached_query_dialog_results
  apply-IsBounded (remember results) s b = remember_results-IsBounded results s b
  apply-IsBounded (prefer_from results) s b = prefer-IsBounded (preferred_of strip [] results) s b
  apply-IsBounded (see key m) s b = see_message-IsBounded key m s b
  apply-IsBounded (note_hits source count) s b = note_dialog_hits-IsBounded strip source count s b
  apply-IsBounded (cache source query results) s (urls, ids, scores, queries) = (
    urls,
    ids,
    scores,
    length-evict-put (cache_key strip source query) results s.query_dialog_cache max_queries
        queries,
  )
  apply-IsBounded forget s (urls, ids, scores, queries) =
      (omega arith, omega arith, scores, queries)
  apply-IsBounded ask_sources s b = b

  abbrev pub after : List Operation → SharedState
  after [] = new_state
  after (o ∷ operations) = apply o (after operations)

  -- After any operations on a new state it has no more seen links, sources, scores and cached queries
  -- than the constants of the file allow.
  pub after-IsBounded : (operations : List Operation) → IsBounded (after operations)
  after-IsBounded [] = (omega arith, omega arith, omega arith, omega arith)
  after-IsBounded (o ∷ operations) =
      apply-IsBounded o (after operations) (after-IsBounded operations)
