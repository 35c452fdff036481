-- ===== src/TelegramSearch/Examples.antt =====
-- Two searches that find the same link: tests and worked instances.
use togo.Common.{String, arith, ◌≡◌, refl, true, List, [], ◌∷◌, select, get, put}
use togo.Matching.Fixture.{result}
use togo.SourceStats.Key.{split_colon}
use togo.TelegramSearch.{
  see_message, seen_messages_for, evict_oldest, index_origin_source, is_telegram_index_source, Hit,
  Dialog, new_state, filter_dialogs, remember_results,
}
use togo.TelegramSearch.Bounds.{
  Operation, remember, see, note_hits, cache, forget, IsBounded, after, after-IsBounded,
}
use togo.TelegramSearch.Remembered.{has_no_link, remember_results-again}

abbrev same_text : String → String
same_text s = s

abbrev hit : Hit
hit = record { result = result; message_id = 4 }

abbrev unlinked : Hit
unlinked = record hit { result = record result { url = "" } }

abbrev hits : List Hit
hits = hit ∷ unlinked ∷ hit ∷ []

abbrev calls : List Operation
calls =
    remember hits
    ∷ note_hits "news" 2
    ∷ cache "news" "a" (result ∷ [])
    ∷ see "news" 4
    ∷ forget
    ∷ remember hits
    ∷ []

abbrev news : Dialog
news = record { canonical = ""; source = "news" }

test_first_kept : (remember_results same_text hits new_state).0 ≡ hit ∷ unlinked ∷ []
unfolding remember_results see_message seen_messages_for evict_oldest index_origin_source
    is_telegram_index_source split_colon get put
test_first_kept = refl

-- Where none of the dialogs is wanted, all are asked.
test_unwanted :
    filter_dialogs same_text
      (news ∷ [])
      (record new_state { force_remote = true; preferred_sources = "films" ∷ [] })
    ≡ news ∷ []
unfolding filter_dialogs
test_unwanted = refl

after-IsBounded_example : IsBounded (after same_text calls)
after-IsBounded_example = after-IsBounded same_text calls

remember_results-again_example :
    remember_results same_text hits (remember_results same_text hits new_state).1
    ≡ (select has_no_link hits, (remember_results same_text hits new_state).1)
remember_results-again_example = remember_results-again same_text hits new_state (omega arith)
