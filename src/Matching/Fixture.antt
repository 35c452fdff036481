-- ===== src/Matching/Fixture.antt =====
-- A series of two episodes of which one is in the library, and a result that names the other, as test
-- data.
use togo.Common.{String, true, false, none, some, List, [], ◌∷◌, str_eq, if◌then◌else◌}
use togo.Episodes.{Subscription, tv}
use togo.Episodes.Texts.{Match, Pattern, episode_dotted_token}
use togo.Library.{Tracked}
use togo.Matching.{Texts, Result, all_kinds}

abbrev group_two : Match
group_two name = if str_eq name "episode" then some "2" else none

abbrev second_episode : Pattern → String → List Match
second_episode episode_dotted_token text = group_two ∷ []
second_episode p text = []

-- Every text names the second episode.
abbrev pub texts : Texts
texts = record {
  regexes = record {
    finditer = second_episode;
    substitute = λ p text. text;
    strip = λ s. s;
    is_digits = λ s. true;
    int_of = λ s. 2;
  };
  fullmatch = λ s. none;
  casefold = λ s. s;
  compact = λ s. s;
  match_text = λ r extra. r.title;
  title_conflicts = λ s r. false;
  year_matches = λ s r text. true;
  subscription_id = λ s. s.tmdb_id;
  tmdb_ids = λ text. [];
  required_terms = λ s. (some ("a", "a"), []);
  title_term_in = λ term text. true;
  term_in = λ term text compacted. true;
  rules_of = λ s. record { exclude_keywords = []; release_groups = []; accept_mode = all_kinds };
  marks_of = λ s r text. record { primary_115 = false; site_plugin_with_id = false };
  is_valid_download_link = λ url. true;
  raises = λ s r. false;
}

abbrev pub series : Subscription
series = record {
  id = 1;
  media_type = tv;
  tmdb_seasons = record { season_number = some 1; episode_count = some 2 } ∷ [];
  tmdb_total_count = 2;
  emby_episodes = some ((1, 1) ∷ []);
  emby_episode_keys = [];
  emby_count = 0;
  in_library = true;
}

abbrev pub tracked : Tracked
tracked = record {
  base = series;
  title = "a";
  tmdb_id = "7";
  status = "active";
  completed_at = none;
  emby_snapshot_failed = false;
}

abbrev pub result : Result
result = record {
  title = "a E02";
  url = "magnet:?xt=1";
  source = "rss:one";
  context = "";
  priority = 1;
}
