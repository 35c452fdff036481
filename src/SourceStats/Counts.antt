-- ===== src/SourceStats/Counts.antt =====
-- The counters of the table show exactly the calls that were made.
use togo.Common.{
  ℕ, ◌+◌, String, ◌≡◌, refl, ap, Bool, false, not, ◌&&◌, Option, none, some, List, [], ◌∷◌, arith,
  if◌then◌else◌, inl, inr, Bool-cases, Dict, get, get-put, str_eq, eq_iff, count_where,
}
use togo.SourceStats.{
  Stat, Fetch, excluded_row, fetched_row, upserted, record_source_fetch, matched_row, match_row,
  record_match,
}

pub data Call : Type 0 where
  fetch : Fetch → ℕ → Call
  match_of : String → String → String → ℕ → Call

abbrev pub after_call : Call → Dict Stat → Dict Stat
after_call (fetch f now) stats = record_source_fetch f now stats
after_call (match_of key name kind now) stats = record_match key name kind now stats

abbrev pub after_calls : List Call → Dict Stat → Dict Stat
after_calls [] stats = stats
after_calls (c ∷ calls) stats = after_calls calls (after_call c stats)

abbrev pub successes : Option Stat → ℕ
successes none = 0
successes (some s) = s.success_count

abbrev pub failures : Option Stat → ℕ
failures none = 0
failures (some s) = s.fail_count

abbrev pub matches : Option Stat → ℕ
matches none = 0
matches (some s) = s.match_count

abbrev pub is_success : String → Call → Bool
is_success key (fetch f now) = str_eq f.source_key key && f.ok
is_success key (match_of k name kind now) = false

abbrev pub is_failure : String → Call → Bool
is_failure key (fetch f now) = str_eq f.source_key key && not f.ok
is_failure key (match_of k name kind now) = false

abbrev pub is_match : String → Call → Bool
is_match key (fetch f now) = false
is_match key (match_of k name kind now) = str_eq k key

record Counted (key : String) (c : Call) (stats : Dict Stat) : Type 0 where
  one_success :
      successes (get key (after_call c stats))
      ≡ successes (get key stats) + (if is_success key c then 1 else 0)
  one_failure :
      failures (get key (after_call c stats))
      ≡ failures (get key stats) + (if is_failure key c then 1 else 0)
  one_match :
      matches (get key (after_call c stats))
      ≡ matches (get key stats) + (if is_match key c then 1 else 0)

module _ (o : Option Stat) (f : Fetch) (now : ℕ) where
  successes-fetched :
      successes (some (upserted fetched_row o (excluded_row f now)))
      ≡ successes o + (if f.ok then 1 else 0)
  successes-fetched = go o
    where
      go :
          (p : Option Stat)
          → successes (some (upserted fetched_row p (excluded_row f now)))
            ≡ successes p + (if f.ok then 1 else 0)
      go none = omega arith
      go (some s) = refl

  failures-fetched :
      failures (some (upserted fetched_row o (excluded_row f now)))
      ≡ failures o + (if not f.ok then 1 else 0)
  failures-fetched = go o
    where
      go :
          (p : Option Stat)
          → failures (some (upserted fetched_row p (excluded_row f now)))
            ≡ failures p + (if not f.ok then 1 else 0)
      go none = ground arith
      go (some s) = ground arith

  matches-fetched : matches (some (upserted fetched_row o (excluded_row f now))) ≡ matches o + 0
  matches-fetched = go o
    where
      go :
          (p : Option Stat)
          → matches (some (upserted fetched_row p (excluded_row f now))) ≡ matches p + 0
      go none = omega arith
      go (some s) = omega arith

Counted-fetch :
    (key : String) (f : Fetch) (now : ℕ) (stats : Dict Stat) → Counted key (fetch f now) stats
unfolding record_source_fetch
Counted-fetch key f now stats = elim (Bool-cases (str_eq f.source_key key)) [
  | inr e ↦ record {
    one_success = rw (get-put, e) (omega arith);
    one_failure = rw (get-put, e) (omega arith);
    one_match = rw (get-put, e) (omega arith);
  }
  | inl e ↦
      let row = ap (λ k. get k stats) ((eq_iff f.source_key key).0 e) in
      record {
        one_success = rw (get-put, e, row) (successes-fetched (get key stats) f now);
        one_failure = rw (get-put, e, row) (failures-fetched (get key stats) f now);
        one_match = rw (get-put, e, row) (matches-fetched (get key stats) f now);
      }
]

matches-matched :
    (o : Option Stat) (e : Stat)
    → e.success_count ≡ 0
    → e.fail_count ≡ 0
    → e.match_count ≡ 1
    → (successes (some (upserted matched_row o e)) ≡ successes o + 0)
      × (failures (some (upserted matched_row o e)) ≡ failures o + 0)
      × (matches (some (upserted matched_row o e)) ≡ matches o + 1)
matches-matched none e a b c = (omega arith, omega arith, omega arith)
matches-matched (some s) e a b c = (omega arith, omega arith, omega arith)

Counted-call : (key : String) (c : Call) (stats : Dict Stat) → Counted key c stats
unfolding record_match
Counted-call key (fetch f now) stats = Counted-fetch key f now stats
Counted-call key (match_of k name kind now) stats = elim (Bool-cases (str_eq k key)) [
  | inr e ↦ record {
    one_success = rw (get-put, e) (omega arith);
    one_failure = rw (get-put, e) (omega arith);
    one_match = rw (get-put, e) (omega arith);
  }
  | inl e ↦
      let row = ap (λ j. get j stats) ((eq_iff k key).0 e) in
      let all = matches-matched (get key stats) (match_row name kind now) refl refl refl in
      record {
        one_success = rw (get-put, e, row) all.0;
        one_failure = rw (get-put, e, row) all.1;
        one_match = rw (get-put, e, row) all.2;
      }
]

-- After any calls, the counters of a source have grown by exactly its successful fetches, its failed
-- fetches and its matches among the calls, each in the counter of its own.
pub after_calls-counts :
    (key : String) (calls : List Call) (stats : Dict Stat)
    → (successes (get key (after_calls calls stats))
        ≡ successes (get key stats) + count_where (is_success key) calls)
      × (failures (get key (after_calls calls stats))
          ≡ failures (get key stats) + count_where (is_failure key) calls)
      × (matches (get key (after_calls calls stats))
          ≡ matches (get key stats) + count_where (is_match key) calls)
after_calls-counts key [] stats = (omega arith, omega arith, omega arith)
after_calls-counts key (c ∷ calls) stats =
    let rest = after_calls-counts key calls (after_call c stats) in
    let one = Counted-call key c stats in
    (
      omega (arith, rest.0, one.one_success),
      omega (arith, rest.1, one.one_failure),
      omega (arith, rest.2, one.one_match),
    )
