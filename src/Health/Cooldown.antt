-- ===== src/Health/Cooldown.antt =====
-- How long a source that fails is passed over, and which sources are used.
use togo.Common.{
  ℕ, ◌+◌, ◌≤◌, ◌<◌, String, ◌≡◌, refl, Bool, false, not, ◌&&◌, List, [], ◌∷◌, arith, ltb, or_else,
  length, select, ◌∙◌, select-ext, le→leb, get, get-put, get-pop, length-put-le, text_refl, str_eq,
  eq_iff,
}
use togo.Health.{
  Health, cooldown, failure_threshold, max_entries, note_source_success, note_source_failure,
  failure_count, with_failure, purge, source_on_cooldown, ready_sources, or_all,
  filter_ready_sources,
}

-- A source is on cooldown while the time of its entry has not come.
abbrev pub cooling : String → ℕ → Health → Bool
cooling key now h = not (str_eq key "") && ltb now (or_else (get key h.cooldown_until) 0)

answer_is_cooling :
    (key : String) (now : ℕ) (h : Health) → (source_on_cooldown key now h).0 ≡ cooling key now h
unfolding source_on_cooldown
answer_is_cooling key now h = ground arith

purge_small :
    (now : ℕ) (h : Health)
    → length h.failures ≤ max_entries
    → length h.cooldown_until ≤ max_entries
    → purge now h ≡ h
unfolding purge
purge_small now h a b = ground arith

-- A failure that is the second one, or a timeout, puts a source with a key on cooldown for exactly
-- three minutes, while fewer than 256 sources have failures and fewer than 256 have cooldowns.
pub source_on_cooldown-note_source_failure :
    (timeout : Bool) (key : String) (now later : ℕ) (h : Health)
    → str_eq key "" ≡ false
    → failure_threshold ≤ failure_count timeout key h
    → length h.failures < max_entries
    → length h.cooldown_until < max_entries
    → (source_on_cooldown key later (note_source_failure timeout key now h)).0
      ≡ ltb later (now + cooldown)
unfolding note_source_failure
source_on_cooldown-note_source_failure timeout key now later h named many a b =
    let failing = with_failure timeout key now h in
    let count = failure_count timeout key h in
    let same : purge now failing ≡ failing =
      purge_small now failing (omega (arith, length-put-le key count h.failures))
        (ground (arith, length-put-le key (now + cooldown) h.cooldown_until)) in
    rw
      (
        answer_is_cooling key later (note_source_failure timeout key now h),
        named,
        note_source_failure,
        same,
        le→leb failure_threshold count many,
        get-put key key (now + cooldown) h.cooldown_until,
        text_refl key,
      )
      refl

-- A success ends the cooldown of a source.
pub source_on_cooldown-note_source_success :
    (key : String) (later : ℕ) (h : Health)
    → (source_on_cooldown key later (note_source_success key h)).0 ≡ false
unfolding note_source_success
source_on_cooldown-note_source_success key later h =
    rw (answer_is_cooling key later (note_source_success key h))
      (ground (arith, get-pop key key h.cooldown_until, text_refl key))

-- Asking for one source changes the answer for none.
cooling-source_on_cooldown :
    (j k : String) (now : ℕ) (h : Health)
    → cooling k now (source_on_cooldown j now h).1 ≡ cooling k now h
unfolding source_on_cooldown
cooling-source_on_cooldown j k now h = ground (arith, eq_iff j k, get-pop j k h.cooldown_until)

module _ {ℓ} {S : Type ℓ} (key : S → String) where
  ready_is_select :
      (now : ℕ) (sources : List S) (h : Health)
      → (ready_sources key now sources h).0 ≡ select (λ s. not (cooling (key s) now h)) sources
  ready_is_select now [] h = refl
  ready_is_select now (s ∷ sources) h =
      let h' = (source_on_cooldown (key s) now h).1 in
      let rest =
        ready_is_select now sources h'
        ∙ select-ext (λ t. not (cooling (key t) now h')) (λ t. not (cooling (key t) now h)) sources
            (λ t. rw (cooling-source_on_cooldown (key s) (key t) now h) refl) in
      rw (answer_is_cooling (key s) now h, rest) (ground arith)

  -- The sources that are used are those that are not on cooldown at the beginning, in their order,
  -- or all of them when each is on cooldown, although the tests write the state between them.
  pub filter_ready_sources-select :
      (now : ℕ) (sources : List S) (h : Health)
      → (filter_ready_sources key now sources h).0
        ≡ or_all key (select (λ s. not (cooling (key s) now h)) sources) sources
  unfolding filter_ready_sources
  filter_ready_sources-select now sources h = rw (ready_is_select now sources h) refl
