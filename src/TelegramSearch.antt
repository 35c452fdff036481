-- ===== src/TelegramSearch.antt =====
-- app/services/adapters/telegram/models.py: what the quick and the full search on Telegram share. A
-- Python set is a list without repetitions. Parameter: Python's `str.strip`. The dialogs that the
-- state may keep are read by no operation of this file and left out.
use text.Mathlib.Text.{starts_with}
use togo.Common.{
  ℕ, ◌+◌, ◌-◌, ◌/◌, String, Bool, true, false, not, ◌&&◌, ◌||◌, Option, none, some, List, [], ◌∷◌,
  if◌then◌else◌, leb, ltb, ◌==◌, length, take, any, select, max, add, ℕ_equal, Dict, get, put,
  pop_all, keys, str_eq, or_text,
}
use togo.Matching.{Result}
use togo.QueryCache.Key.{cache_key}
use togo.SourceStats.Key.{split_colon}
pub mod Bounds
pub mod Remembered
mod Examples

abbrev pub max_urls : ℕ
max_urls = 5000

abbrev pub max_sources : ℕ
max_sources = 200

abbrev pub max_messages : ℕ
max_messages = 2000

abbrev pub max_queries : ℕ
max_queries = 500

abbrev pub max_scores : ℕ
max_scores = 200

-- A result with the number of its message; 0 stands for a number that counts as none.
pub record Hit : Type 0 where
  pub result : Result
  pub message_id : ℕ

pub record Dialog : Type 0 where
  pub canonical : String
  pub source : String

pub record SharedState : Type 0 where
  pub seen_message_ids : Dict (List ℕ)
  pub seen_urls : List String
  pub force_remote : Bool
  pub preferred_sources : List String
  pub dialog_hit_scores : Dict ℕ
  pub query_dialog_cache : Dict (List Result)

abbrev pub new_state : SharedState
new_state = record {
  seen_message_ids = [];
  seen_urls = [];
  force_remote = false;
  preferred_sources = [];
  dialog_hit_scores = [];
  query_dialog_cache = [];
}

-- `_evict_oldest`, for the fraction of a fifth.
unfoldable pub evict_oldest : {V : Type 0} → Dict V → ℕ → Dict V
evict_oldest d max_size =
    if leb (length d) max_size then d else pop_all (keys (take (max 1 (length d / 5)) d)) d

abbrev after_colon : Option (String × String) → String
after_colon none = ""
after_colon (some (left, right)) = right

abbrev pub bucket_or_new : String → SharedState → Option (List ℕ) → List ℕ × SharedState
bucket_or_new key s (some bucket) = (bucket, s)
bucket_or_new key s none =
    ([], record s { seen_message_ids = evict_oldest (put key [] s.seen_message_ids) max_sources })

-- The key's bucket, with the state in which it is there.
unfoldable pub seen_messages_for : String → SharedState → List ℕ × SharedState
seen_messages_for key s = bucket_or_new key s (get key s.seen_message_ids)

-- The bucket is the one of the state, so that what is added to it is added there.
unfoldable pub see_message : String → ℕ → SharedState → SharedState
unfolding seen_messages_for
see_message key m s =
    let (bucket, t) = seen_messages_for key s in
    record t {
      seen_message_ids =
          put key (add m (if leb max_messages (length bucket) then [] else bucket))
            t.seen_message_ids;
    }

abbrev pub score_of : Option ℕ → ℕ
score_of none = 0
score_of (some n) = n

unfoldable pub note_dialog_hits : (String → String) → String → ℕ → SharedState → SharedState
unfolding evict_oldest
note_dialog_hits strip source count s =
    let key = strip source in
    if str_eq key "" || count == 0 then s else record s {
      dialog_hit_scores =
          evict_oldest
            (put key (score_of (get key s.dialog_hit_scores) + count) s.dialog_hit_scores)
            max_scores;
    }

module _ (strip : String → String) where
  unfoldable pub is_telegram_index_source : String → Bool
  is_telegram_index_source value =
      let text = strip value in str_eq text "TelegramIndex" || starts_with text "TelegramIndex:"

  unfoldable pub index_origin_source : String → String
  index_origin_source value =
      let text = strip value in
      if starts_with text "TelegramIndex:" then strip (after_colon (split_colon text)) else ""

  abbrev pub origin_of : Result → String
  origin_of r =
      or_text (index_origin_source r.source)
        (if is_telegram_index_source r.source then "" else r.source)

  abbrev pub note_message : Hit → SharedState → SharedState
  note_message h s =
      let origin = origin_of h.result in
      if h.message_id == 0 || str_eq origin "" then s else see_message origin h.message_id s

  -- `self.seen_urls.add(url)`, once there is room.
  abbrev pub see_url : String → SharedState → SharedState
  see_url url s = record s {
    seen_urls = url ∷ (if leb max_urls (length s.seen_urls) then [] else s.seen_urls);
  }

  -- One turn of the loop: whether the result is kept.
  abbrev pub remember_one : Hit → SharedState → Bool × SharedState
  remember_one h s =
      if str_eq h.result.url ""
      then (true, s)
      else if any (λ url. str_eq url h.result.url) s.seen_urls
      then (false, s)
      else (true, note_message h (see_url h.result.url s))

  unfoldable pub remember_results : List Hit → SharedState → List Hit × SharedState
  remember_results [] s = ([], s)
  remember_results (h ∷ results) s =
      let (keep, t) = remember_one h s in
      let (kept, u) = remember_results results t in (if keep then h ∷ kept else kept, u)

  abbrev pub preferred_of : List String → List Hit → List String
  preferred_of seen [] = []
  preferred_of seen (h ∷ results) =
      let origin = index_origin_source h.result.source in
      let again = str_eq origin "" || any (λ o. str_eq o origin) seen in
      let rest = preferred_of (if again then seen else origin ∷ seen) results in
      if again then rest else origin ∷ rest

  abbrev pub prefer : List String → SharedState → SharedState
  prefer [] s = s
  prefer (o ∷ preferred) s = record s { preferred_sources = o ∷ preferred }

  unfoldable pub set_preferred_sources_from_results : List Hit → SharedState → SharedState
  set_preferred_sources_from_results results s = prefer (preferred_of [] results) s

  unfoldable pub get_cached_query_dialog_results :
      String → String → SharedState → Option (List Result)
  get_cached_query_dialog_results source query s =
      get (cache_key strip source query) s.query_dialog_cache

  unfoldable pub set_cached_query_dialog_results :
      String → String → List Result → SharedState → SharedState
  unfolding evict_oldest
  set_cached_query_dialog_results source query results s = record s {
    query_dialog_cache =
        evict_oldest (put (cache_key strip source query) results s.query_dialog_cache) max_queries;
  }

  abbrev pub none_blank : List String → List String
  none_blank [] = []
  none_blank (o ∷ sources) =
      let rest = none_blank sources in if str_eq (strip o) "" then rest else strip o ∷ rest

  abbrev pub narrowed_or : List Dialog → List Dialog → List Dialog
  narrowed_or [] dialogs = dialogs
  narrowed_or (d ∷ narrowed) dialogs = d ∷ narrowed

  abbrev pub wanted_only : List String → List Dialog → List Dialog
  wanted_only [] dialogs = dialogs
  wanted_only (o ∷ wanted) dialogs =
      narrowed_or
        (select (λ d. any (str_eq (strip (or_text d.canonical d.source))) (o ∷ wanted)) dialogs)
        dialogs

  unfoldable pub filter_dialogs : List Dialog → SharedState → List Dialog
  filter_dialogs dialogs s =
      if s.force_remote then wanted_only (none_blank s.preferred_sources) dialogs else dialogs
