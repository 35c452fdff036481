-- ===== src/Episodes/Examples.antt =====
-- The episodes of a series with two seasons: tests and worked instances.
use togo.Common.{
  ℕ, ◌≡◌, refl, String, true, not, ◌&&◌, Option, none, some, List, [], ◌∷◌, if◌then◌else◌, has,
  pair_equal, ℕ_equal, str_eq,
}
use togo.Episodes.{
  Key, Subscription, tv, is_tv, is_none, expand_episode_range, all_tmdb_episode_keys,
  owned_episode_keys, missing_episode_keys,
}
use togo.Episodes.Announced.{is_announced}
use togo.Episodes.Owned.{is_owned, has-missing_episode_keys_of_columns}
use togo.Episodes.Texts.{
  Regexes, Match, Pattern, season_mention, season_pack_word, season_numbers_from_text,
  episodes_from_text, number_token_to_int,
}
use togo.Episodes.Ranges.{
  episode_spans, keys_of_spans, episode_range_labels, span, more, has-episode_spans,
}

abbrev fullmatch : String → Option (ℕ × ℕ)
fullmatch s = none

abbrev series : Subscription
series = record {
  id = 1;
  media_type = tv;
  tmdb_seasons =
      record { season_number = some 1; episode_count = some 3 }
      ∷ record { season_number = some 2; episode_count = some 2 }
      ∷ record { season_number = none; episode_count = some 9 }
      ∷ [];
  tmdb_total_count = 5;
  emby_episodes = some ((1, 1) ∷ (1, 2) ∷ (7, 7) ∷ []);
  emby_episode_keys = [];
  emby_count = 2;
  in_library = true;
}

test_missing : missing_episode_keys fullmatch series ≡ (1, 3) ∷ (2, 1) ∷ (2, 2) ∷ []
unfolding missing_episode_keys all_tmdb_episode_keys owned_episode_keys
test_missing = refl

test_range : expand_episode_range 0 3 5 ≡ (1, 3) ∷ (1, 4) ∷ (1, 5) ∷ []
unfolding expand_episode_range
test_range = refl

abbrev pack_matches : Pattern → String → List Match
pack_matches season_mention text = (λ name. if str_eq name "s" then some "2" else none) ∷ []
pack_matches season_pack_word text = (λ name. none) ∷ []
pack_matches p text = []

-- A text that names season 2 and is a pack.
abbrev pack_regexes : Regexes
pack_regexes = record {
  finditer = pack_matches;
  substitute = λ p text. text;
  strip = λ s. s;
  is_digits = λ s. true;
  int_of = λ s. 2;
}

pack_is_bare : is_none (episodes_from_text pack_regexes "S2 pack") ≡ true
unfolding episodes_from_text
pack_is_bare = refl

pack_names_two : has 2 (season_numbers_from_text pack_regexes "S2 pack") ≡ true
unfolding season_numbers_from_text number_token_to_int
pack_names_two = refl

test_spans :
    episode_range_labels 2 ((1, 2) ∷ (1, 1) ∷ (1, 5) ∷ (3, 1) ∷ (1, 2) ∷ [])
    ≡ span (record { season = 1; first = 1; last = 2 })
      ∷ span (record { season = 1; first = 5; last = 5 })
      ∷ more 1
      ∷ []
unfolding episode_range_labels episode_spans
test_spans = refl

has-missing_episode_keys_of_columns_example :
    has (2, 1) (missing_episode_keys fullmatch series)
    ≡ (is_tv tv && is_announced series (2, 1) && not (is_owned fullmatch series (2, 1)))
has-missing_episode_keys_of_columns_example =
    has-missing_episode_keys_of_columns fullmatch series (2, 1)

test_is_missing : (is_announced series (2, 1) && not (is_owned fullmatch series (2, 1))) ≡ true
test_is_missing = refl

has-episode_spans_example :
    has (1, 2) (keys_of_spans (episode_spans ((1, 2) ∷ (1, 1) ∷ (2, 5) ∷ [])))
    ≡ has {A = Key} (1, 2) ((1, 2) ∷ (1, 1) ∷ (2, 5) ∷ [])
has-episode_spans_example = has-episode_spans ((1, 2) ∷ (1, 1) ∷ (2, 5) ∷ []) (1, 2)
