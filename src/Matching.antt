-- ===== src/Matching.antt =====
-- app/services/subscription/match and resource/guard.py: whether a search result fits a subscription,
-- why it does not, and whether it is still worth saving or delivering. This file has core.py,
-- quality.py, skip_reasons.py and result_text of resource_match.py. Parameters: the comparisons of
-- titles, years, terms and TMDB ids (regular expressions and tables of characters), the reading of
-- the quality rules, and whether one of these raises.
pub mod Decision
pub mod Explained
pub mod Guarded
pub mod Fixture
mod Examples
use Prim.Native.String.{◌++◌}
use text.Mathlib.Text.{find?}
use togo.Common.{
  ℕ, String, Bool, true, false, not, ◌&&◌, ◌||◌, Option, none, some, List, [], ◌∷◌, if◌then◌else◌,
  ltb, any, all, is_some, coalesce, length, str_eq, inter, pair_equal,
}
use togo.Episodes.{Key, is_tv, is_none, all_tmdb_episode_keys, missing_episode_keys}
use togo.Episodes.Texts.{
  Regexes, searches, season_pack_word, strong_pack_word, full_series_pack, episodes_from_text,
  episode_counts_from_pack_text,
}
use togo.Episodes.Packs.{episode_keys_from_text_for_subscription}
use togo.Library.{Tracked, Marks}

-- SearchResult; an empty text stands for a missing one.
pub record Result : Type 0 where
  pub title : String
  pub url : String
  pub source : String
  pub context : String
  pub priority : ℕ

pub data AcceptMode : Type 0 where
  all_kinds packs singles : AcceptMode

pub record Rules : Type 0 where
  pub exclude_keywords : List String
  pub release_groups : List String
  pub accept_mode : AcceptMode

abbrev pub Term : Type 0
Term = String × String

pub record Texts : Type 0 where
  pub regexes : Regexes
  pub fullmatch : String → Option (ℕ × ℕ)
  pub casefold : String → String
  pub compact : String → String
  pub match_text : Result → List String → String
  pub title_conflicts : Tracked → Result → Bool
  pub year_matches : Tracked → Result → String → Bool
  pub subscription_id : Tracked → String
  pub tmdb_ids : String → List String
  pub required_terms : Tracked → Option Term × List Term
  pub title_term_in : Term → String → Bool
  pub term_in : Term → String → String → Bool
  pub rules_of : Tracked → Rules
  pub marks_of : Tracked → Result → String → Marks
  pub is_valid_download_link : String → Bool
  pub raises : Tracked → Result → Bool

-- The texts of `result_skip_reason`, of which "" is `none` of them.
pub data Reason : Type 0 where
  empty_text title_conflict year_mismatch tmdb_mismatch title_missing : Reason
  keyword_missing : Term → Reason
  excluded_word no_release_group only_packs only_singles : Reason
  film_in_library matched series_complete no_episode_found not_missing : Reason

-- `"\n".join(part for part in parts if part)`
abbrev pub joined : List String → String
joined [] = ""
joined (part ∷ parts) =
    let rest = joined parts in
    if str_eq part "" then rest else if str_eq rest "" then part else part ++ "\n" ++ rest

abbrev pub result_text : Result → List String → String
result_text r extra = joined (r.context ∷ r.title ∷ extra)

abbrev pub contains : String → String → Bool
contains text word = is_some (find? text word)

-- `"\n" + "\n".join(…)` where there are extra texts.
abbrev pub with_extra : String → List String → String
with_extra text [] = text
with_extra text (t ∷ extra) = text ++ "\n" ++ joined (t ∷ extra)

-- `words and …`
abbrev pub listed : List String → Bool
listed [] = false
listed (w ∷ words) = true

abbrev pub id_listed : String → List String → Bool
id_listed i ids = any (str_eq i) ids

-- `subscription_tmdb_id and text_tmdb_ids`
abbrev pub ids_known : String → List String → Bool
ids_known i ids = not (str_eq i "") && listed ids

module _ (t : Texts) where
  open t use {
    regexes, fullmatch, casefold, compact, match_text, title_conflicts, year_matches,
    subscription_id, tmdb_ids, required_terms, title_term_in, term_in, rules_of,
  }

  -- An ed2k link with a title is judged by its title alone.
  abbrev pub is_ed2k : Result → Bool
  is_ed2k r = contains (casefold r.url) "ed2k://" && not (str_eq r.title "")

  abbrev pub word_in : String → String → Bool
  word_in text word =
      not (str_eq word "")
      && (contains (casefold text) (casefold word) || contains (compact text) (compact word))

  abbrev pub text_contains_any : String → List String → Bool
  text_contains_any text words = any (word_in text) words

  abbrev pub is_pack_result_text : String → Bool
  is_pack_result_text text =
      let episodes = episodes_from_text regexes text in
      if ltb 1 (length episodes) || ltb 0 (length (episode_counts_from_pack_text regexes text))
      then true
      else (searches regexes season_pack_word text || searches regexes full_series_pack text)
        && (is_none episodes || searches regexes strong_pack_word text)

  abbrev pub mode_reason : AcceptMode → Bool → Option Reason
  mode_reason all_kinds is_pack = none
  mode_reason packs is_pack = if is_pack then none else some only_packs
  mode_reason singles is_pack = if is_pack then some only_singles else none

  abbrev pub quality_text : Result → List String → String
  quality_text r extra =
      if is_ed2k r then with_extra (regexes.strip r.title) extra else result_text r extra

  unfoldable pub quality_rule_skip_reason : Tracked → Result → List String → Option Reason
  quality_rule_skip_reason s r extra =
      let rules = rules_of s in
      let text = quality_text r extra in
      if listed rules.exclude_keywords && text_contains_any text rules.exclude_keywords
      then some excluded_word
      else if listed rules.release_groups && not (text_contains_any text rules.release_groups)
      then some no_release_group
      else mode_reason rules.accept_mode (is_pack_result_text text)

  abbrev pub title_found : Option Term → String → Bool
  title_found none text = false
  title_found (some term) text = title_term_in term text

  abbrev pub tmdb_or_title_matches : Tracked → String → Option Term → Bool
  tmdb_or_title_matches s text term =
      if ids_known (subscription_id s) (tmdb_ids text)
      then id_listed (subscription_id s) (tmdb_ids text)
      else title_found term text

  abbrev pub subject_text : Result → List String → String
  subject_text r extra =
      if is_ed2k r then with_extra (regexes.strip r.title) extra else match_text r extra

  abbrev pub found_in : String → Term → Bool
  found_in text term = term_in term (casefold text) (compact text)

  unfoldable pub result_matches_subscription : Tracked → Result → List String → Bool
  result_matches_subscription s r extra =
      let text = subject_text r extra in
      let terms = required_terms s in
      if str_eq text ""
      then false
      else if title_conflicts s r
      then false
      else if not (year_matches s r text)
      then false
      else if not (tmdb_or_title_matches s text terms.0)
      then false
      else all (found_in text) terms.1 && not (is_some (quality_rule_skip_reason s r extra))

  abbrev pub tmdb_title_skip_reason : Tracked → String → Option Term → Option Reason
  tmdb_title_skip_reason s text term =
      if ids_known (subscription_id s) (tmdb_ids text)
      then (if id_listed (subscription_id s) (tmdb_ids text) then none else some tmdb_mismatch)
      else if title_found term text
      then none
      else some title_missing

  -- The loop over the terms.
  abbrev pub keyword_reason : String → List Term → Option Reason
  keyword_reason text [] = none
  keyword_reason text (term ∷ terms) =
      let rest = keyword_reason text terms in
      if found_in text term then rest else some (keyword_missing term)

  abbrev pub episode_text : Result → List String → String
  episode_text r extra = if is_ed2k r then r.title else result_text r extra

  -- The episodes that a result names for a subscription.
  abbrev pub named_episodes : Tracked → Result → List String → List Key
  named_episodes s r extra =
      episode_keys_from_text_for_subscription regexes fullmatch (some s.base) (episode_text r extra)

  abbrev pub episode_skip_reason : Tracked → Result → List String → Option Reason
  episode_skip_reason s r extra =
      let missing = missing_episode_keys fullmatch s.base in
      let episodes = named_episodes s r extra in
      if not (is_tv s.base.media_type)
      then (if s.base.in_library then some film_in_library else some matched)
      else if s.emby_snapshot_failed
      then none
      else if is_none (all_tmdb_episode_keys s.base)
      then some matched
      else if is_none missing
      then some series_complete
      else if is_none episodes
      then some no_episode_found
      else if is_none (inter episodes missing)
      then some not_missing
      else some matched

  -- What `result_skip_reason` says before it comes to the episodes.
  unfoldable pub mismatch_reason : Tracked → Result → List String → Option Reason
  mismatch_reason s r extra =
      let text = match_text r extra in
      let terms = required_terms s in
      if str_eq text ""
      then some empty_text
      else if title_conflicts s r
      then some title_conflict
      else if not (year_matches s r text)
      then some year_mismatch
      else coalesce (tmdb_title_skip_reason s text terms.0)
          (coalesce (keyword_reason text terms.1) (quality_rule_skip_reason s r extra))

  unfoldable pub result_skip_reason : Tracked → Result → List String → Option Reason
  unfolding mismatch_reason
  result_skip_reason s r extra =
      coalesce (mismatch_reason s r extra) (episode_skip_reason s r extra)
