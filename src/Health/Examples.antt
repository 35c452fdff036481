-- ===== src/Health/Examples.antt =====
-- The cooldown of sources on a concrete state: tests and worked instances.
use togo.Common.{String, ◌≡◌, refl, false, [], ◌∷◌, get, put}
use togo.Health.{Health, no_health, note_source_failure, source_on_cooldown, filter_ready_sources}

abbrev key : String → String
key name = name

abbrev slow : Health
slow = record { failures = ("slow", 2) ∷ []; cooldown_until = ("slow", 100) ∷ [] }

test_one_failure_is_no_cooldown :
    (source_on_cooldown "a" 6 (note_source_failure false "a" 5 no_health)).0 ≡ false
unfolding source_on_cooldown note_source_failure get put
test_one_failure_is_no_cooldown = refl

test_slow_source_is_passed_over :
    (filter_ready_sources key 50 ("slow" ∷ "quick" ∷ []) slow).0 ≡ "quick" ∷ []
unfolding filter_ready_sources source_on_cooldown get
test_slow_source_is_passed_over = refl
