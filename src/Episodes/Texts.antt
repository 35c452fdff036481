-- ===== src/Episodes/Texts.antt =====
-- explicit.py and numbers.py: the seasons and episodes that a text names. Parameters: Python's `re`
-- with the patterns by their names, `str.strip`, `str.isdigit` and `int`. A match is a function from
-- the names of its groups.
use togo.Common.{
  ℕ, String, Bool, true, false, ◌||◌, Option, none, some, List, [], ◌∷◌, if◌then◌else◌, ◌==◌, ltb,
  leb, coalesce, or_else, str_eq, union, add, ℕ_equal, pair_equal,
}
use togo.ChineseNumbers.{chinese_number_to_int}
use togo.Episodes.{Key, expand_episode_range}

pub data Pattern : Type 0 where
  url_like split_115_share_path update_to_episode cn_update_to_native : Pattern
  cn_season_episode cn_season_episode_native season_dotted_episode episode_dotted_token : Pattern
  episode_token plain_episode_range cn_full_count_native cn_episode_range_native : Pattern
  cn_episode_native season_mention cn_season_mention_native full_episode_count : Pattern
  season_pack_word strong_pack_word full_series_pack full_series_wide_pack : Pattern

abbrev pub Match : Type 0
Match = String → Option String

pub record Regexes : Type 0 where
  pub finditer : Pattern → String → List Match
  pub substitute : Pattern → String → String
  pub strip : String → String
  pub is_digits : String → Bool
  pub int_of : String → ℕ

abbrev pub some_match : List Match → Bool
some_match [] = false
some_match (m ∷ ms) = true

module _ (re : Regexes) where
  open re use {finditer, substitute, strip, is_digits, int_of}

  abbrev pub searches : Pattern → String → Bool
  searches p text = some_match (finditer p text)

  abbrev pub number_of_text : String → Option ℕ
  number_of_text text =
      if str_eq text ""
      then none
      else if is_digits text
      then some (int_of text)
      else chinese_number_to_int strip text

  -- `_number_token_to_int`
  unfoldable pub number_token_to_int : Option String → Option ℕ
  number_token_to_int value = number_of_text (strip (or_else value ""))

  abbrev pub episode_parse_text : String → String
  episode_parse_text text = substitute split_115_share_path (substitute url_like text)

  -- `if number and 0 < number <= top: numbers.add(number)`
  abbrev pub add_number : ℕ → Option ℕ → List ℕ → List ℕ
  add_number top none numbers = numbers
  add_number top (some n) numbers = if n == 0 || ltb top n then numbers else add n numbers

  abbrev pub season_token : Match → Option String
  season_token m = coalesce (m "s") (coalesce (m "season") (coalesce (m "ord") (m "cn")))

  -- The first loop of `_season_numbers_from_text`, which writes its variable `value` as well.
  abbrev pub season_loop : List Match → String → List ℕ → String × List ℕ
  season_loop [] value seasons = (value, seasons)
  season_loop (m ∷ ms) value seasons =
      season_loop ms (or_else (season_token m) "")
        (add_number 99 (number_token_to_int (season_token m)) seasons)

  abbrev pub number_loop : (Match → Option String) → ℕ → List Match → List ℕ → List ℕ
  number_loop token top [] numbers = numbers
  number_loop token top (m ∷ ms) numbers =
      number_loop token top ms (add_number top (number_token_to_int (token m)) numbers)

  unfoldable pub season_numbers_from_text : String → List ℕ
  season_numbers_from_text text =
      let value = episode_parse_text text in
      let first = season_loop (finditer season_mention value) value [] in
      number_loop (λ m. m "season") 99 (finditer cn_season_mention_native first.0) first.1

  unfoldable pub episode_counts_from_pack_text : String → List ℕ
  episode_counts_from_pack_text text =
      let value = episode_parse_text text in
      let token = λ (m : Match). coalesce (m "prefix") (coalesce (m "suffix") (m "en")) in
      let native = λ (m : Match). coalesce (m "prefix") (m "suffix") in
      number_loop native 200 (finditer cn_full_count_native value)
        (number_loop token 200 (finditer full_episode_count value) [])

  -- The keys of one match, by the pattern that made it.
  abbrev pub span_of : ℕ → Option ℕ → Option ℕ → List Key
  span_of season none end = []
  span_of season (some start) end =
      if start == 0 then [] else expand_episode_range season start (or_else end 0)

  -- `_number_token_to_int(end_value) if end_value else start`
  abbrev pub end_number : Option String → Option ℕ → Option ℕ
  end_number none start = start
  end_number (some token) start = number_token_to_int (some token)

  -- `int(value) if value else default`
  abbrev pub int_or : ℕ → Option String → ℕ
  int_or default none = default
  int_or default (some value) = int_of value

  abbrev pub dotted_keys : Match → List Key
  dotted_keys m =
      let season = int_or 1 (m "season") in
      let start = int_or 0 (m "episode") in
      let end = int_or start (m "episode_end") in expand_episode_range season start end

  abbrev pub cn_season_keys : Match → List Key
  cn_season_keys m =
      let start = number_token_to_int (m "episode") in
      let season = or_else (number_token_to_int (m "season")) 0 in
      if season == 0 then [] else span_of season start (end_number (m "episode_end") start)

  abbrev pub token_keys : Match → List Key
  token_keys m =
      let start = number_token_to_int (coalesce (m "episode") (m "cn_episode")) in
      let season = int_or 1 (m "season") in
      span_of season start (end_number (coalesce (m "episode_end") (m "cn_episode_end")) start)

  abbrev pub plain_keys : Match → List Key
  plain_keys m =
      let start = int_or 0 (m "start") in
      let end = int_or 0 (m "end") in if leb start end then expand_episode_range 1 start end else []

  abbrev pub update_keys : Match → List Key
  update_keys m =
      let episode = or_else (number_token_to_int (coalesce (m "episode") (m "episode_colon"))) 0 in
      if episode == 0 then [] else expand_episode_range 1 1 episode

  abbrev pub native_keys : Match → List Key
  native_keys m =
      let start = number_token_to_int (m "episode") in
      span_of 1 start (end_number (m "episode_end") start)

  -- `for match in …: episodes.update(…)`
  abbrev pub episode_loop : (Match → List Key) → List Match → List Key → List Key
  episode_loop keys [] episodes = episodes
  episode_loop keys (m ∷ ms) episodes = episode_loop keys ms (union episodes (keys m))

  abbrev pub or_else_keys : List Key → List Key → List Key
  or_else_keys [] keys = keys
  or_else_keys (k ∷ ks) keys = k ∷ ks

  abbrev pub episodes_from_update_text : String → List Key
  episodes_from_update_text text =
      episode_loop update_keys (finditer cn_update_to_native text)
        (episode_loop update_keys (finditer update_to_episode text) [])

  abbrev pub episodes_from_cn_season_text : String → List Key
  episodes_from_cn_season_text text =
      or_else_keys (episode_loop cn_season_keys (finditer cn_season_episode text) [])
        (episode_loop cn_season_keys (finditer cn_season_episode_native text) [])

  abbrev pub episodes_from_dotted_episode_text : String → List Key
  episodes_from_dotted_episode_text text =
      episode_loop dotted_keys (finditer episode_dotted_token text)
        (episode_loop dotted_keys (finditer season_dotted_episode text) [])

  abbrev pub episodes_from_token_text : String → List Key
  episodes_from_token_text text = episode_loop token_keys (finditer episode_token text) []

  abbrev pub episodes_from_plain_ranges : String → List Key
  episodes_from_plain_ranges text = episode_loop plain_keys (finditer plain_episode_range text) []

  abbrev pub episodes_from_native_cn_episode_text : String → List Key
  episodes_from_native_cn_episode_text text =
      if searches cn_full_count_native text
      then []
      else episode_loop native_keys (finditer cn_episode_native text)
          (episode_loop native_keys (finditer cn_episode_range_native text) [])

  unfoldable pub episodes_from_text : String → List Key
  episodes_from_text text =
      let value = episode_parse_text text in
      or_else_keys (episodes_from_update_text value) (
        or_else_keys (episodes_from_cn_season_text value) (
          or_else_keys (episodes_from_dotted_episode_text value) (
            or_else_keys (episodes_from_token_text value) (
              or_else_keys (episodes_from_plain_ranges value)
                (episodes_from_native_cn_episode_text value)))))
