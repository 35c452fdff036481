-- ===== src/TelegramSearch/Remembered.antt =====
-- Which results of a search are kept, and which dialogs are asked.
use togo.Common.{
  ℕ, suc, ◌+◌, ◌≤◌, ◌≡◌, refl, sym, subst, String, Bool, true, false, ◌&&◌, ◌||◌, Option, none,
  some, List, [], ◌∷◌, arith, if◌then◌else◌, inl, inr, Bool-cases, leb, ◌==◌, length, any, all,
  select, str_eq, text_refl,
}
use togo.TelegramSearch.{
  Hit, SharedState, max_urls, bucket_or_new, seen_messages_for, see_message, origin_of,
  note_message, see_url, remember_one, remember_results,
}
use togo.Common.{get}

bucket_or_new-seen_urls :
    (key : String) (s : SharedState) (o : Option (List ℕ))
    → (bucket_or_new key s o).1.seen_urls ≡ s.seen_urls
bucket_or_new-seen_urls key s none = refl
bucket_or_new-seen_urls key s (some bucket) = refl

no_way : {a b : Bool} → a ≡ false → b ≡ false → (a || b) ≡ true → ⊥
no_way e f seen = cc

second : {a b : Bool} → a ≡ false → (a || b) ≡ true → b ≡ true
second e both = cc

both_true : {a b : Bool} → a ≡ true → b ≡ true → (a && b) ≡ true
both_true e f = rw (e, f) refl

or_later : (a : Bool) {b : Bool} → (a ≡ false → b ≡ true) → (a || b) ≡ true
or_later true h = refl
or_later false h = h refl

abbrev sees : List String → String → Bool
sees urls url = any (λ u. str_eq u url) urls

abbrev pub has_no_link : Hit → Bool
has_no_link h = str_eq h.result.url ""

module _ (strip : String → String) where
  note_message-seen_urls :
      (h : Hit) (s : SharedState) → (note_message strip h s).seen_urls ≡ s.seen_urls
  unfolding see_message seen_messages_for
  note_message-seen_urls h s =
      elim (Bool-cases (h.message_id == 0 || str_eq (origin_of strip h.result) "")) [
        | inl e ↦ rw e refl
        | inr e ↦ rw e (
            bucket_or_new-seen_urls (origin_of strip h.result) s
              (get (origin_of strip h.result) s.seen_message_ids))
      ]

  -- The seen links after one turn, while there is room.
  abbrev next_urls : Hit → List String → List String
  next_urls h urls =
      if has_no_link h then urls else if sees urls h.result.url then urls else h.result.url ∷ urls

  remember_one-seen_urls :
      (h : Hit) (s : SharedState)
      → length s.seen_urls + 1 ≤ max_urls
      → (remember_one strip h s).1.seen_urls ≡ next_urls h s.seen_urls
  remember_one-seen_urls h s room = elim (Bool-cases (has_no_link h)) [
    | inl e ↦ rw e refl
    | inr e ↦ elim (Bool-cases (sees s.seen_urls h.result.url)) [
      | inl f ↦ rw (e, f) refl
      | inr f ↦
          let free : leb max_urls (length s.seen_urls) ≡ false = ground (arith, room) in
          rw (e, f, note_message-seen_urls h (see_url strip h.result.url s), free) refl
    ]
  ]

  next_urls-length : (h : Hit) (urls : List String) → length (next_urls h urls) ≤ length urls + 1
  next_urls-length h urls = ground arith

  next_urls-sees :
      (h : Hit) (urls : List String)
      → (has_no_link h || sees (next_urls h urls) h.result.url) ≡ true
  next_urls-sees h urls = ground (arith, text_refl h.result.url)

  next_urls-still :
      (h : Hit) (urls : List String) (url : String)
      → sees urls url ≡ true
      → sees (next_urls h urls) url ≡ true
  next_urls-still h urls url seen = ground (arith, seen)

  one_more : (n m : ℕ) → n + suc m ≤ max_urls → n + 1 ≤ max_urls
  one_more n m room = omega (arith, room)

  remember_one-room :
      (h : Hit) (n : ℕ) (s : SharedState)
      → length s.seen_urls + suc n ≤ max_urls
      → length (remember_one strip h s).1.seen_urls + n ≤ max_urls
  remember_one-room h n s room =
      subst (λ us. length us + n ≤ max_urls)
        (sym (remember_one-seen_urls h s (one_more (length s.seen_urls) n room)))
        (omega (arith, room, next_urls-length h s.seen_urls))

  -- Each link of the results is among the seen ones.
  abbrev all_seen : List Hit → List String → Bool
  all_seen results urls = all (λ h. has_no_link h || sees urls h.result.url) results

  remember_results-still :
      (results : List Hit) (s : SharedState) (url : String)
      → length s.seen_urls + length results ≤ max_urls
      → sees s.seen_urls url ≡ true
      → sees (remember_results strip results s).1.seen_urls url ≡ true
  unfolding remember_results
  remember_results-still [] s url room seen = seen
  remember_results-still (h ∷ results) s url room seen =
      let t = (remember_one strip h s).1 in
      let urls : t.seen_urls ≡ next_urls h s.seen_urls =
        remember_one-seen_urls h s (one_more (length s.seen_urls) (length results) room) in
      remember_results-still results t url (remember_one-room h (length results) s room)
        (subst (λ us. sees us url ≡ true) (sym urls) (next_urls-still h s.seen_urls url seen))

  remember_results-all_seen :
      (results : List Hit) (s : SharedState)
      → length s.seen_urls + length results ≤ max_urls
      → all_seen results (remember_results strip results s).1.seen_urls ≡ true
  unfolding remember_results
  remember_results-all_seen [] s room = refl
  remember_results-all_seen (h ∷ results) s room =
      let t = (remember_one strip h s).1 in
      let urls : t.seen_urls ≡ next_urls h s.seen_urls =
        remember_one-seen_urls h s (one_more (length s.seen_urls) (length results) room) in
      let space = remember_one-room h (length results) s room in
      let others = remember_results-all_seen results t space in
      let seen_now =
        subst (λ us. (has_no_link h || sees us h.result.url) ≡ true) (sym urls)
          (next_urls-sees h s.seen_urls) in
      both_true
        (or_later (has_no_link h)
          (λ named. remember_results-still results t h.result.url space (second named seen_now)))
        others

  remember_one-seen :
      (h : Hit) (s : SharedState)
      → (has_no_link h || sees s.seen_urls h.result.url) ≡ true
      → remember_one strip h s ≡ (has_no_link h, s)
  remember_one-seen h s seen = elim (Bool-cases (has_no_link h)) [
    | inl e ↦ rw e refl
    | inr e ↦ elim (Bool-cases (sees s.seen_urls h.result.url)) [
      | inl f ↦ rw (e, f) refl
      | inr f ↦ absurd (no_way e f seen)
    ]
  ]

  remember_results-seen :
      (results : List Hit) (s : SharedState)
      → all_seen results s.seen_urls ≡ true
      → remember_results strip results s ≡ (select has_no_link results, s)
  unfolding remember_results
  remember_results-seen [] s seen = refl
  remember_results-seen (h ∷ results) s seen =
      let this : (has_no_link h || sees s.seen_urls h.result.url) ≡ true = ground (arith, seen) in
      let others : all_seen results s.seen_urls ≡ true = ground (arith, seen) in
      rw (remember_one-seen h s this, remember_results-seen results s others) refl

  -- While there is room for the links of the results, remembering the same results again keeps only
  -- those that have no link, and changes nothing.
  pub remember_results-again :
      (results : List Hit) (s : SharedState)
      → length s.seen_urls + length results ≤ max_urls
      → remember_results strip results (remember_results strip results s).1
        ≡ (select has_no_link results, (remember_results strip results s).1)
  remember_results-again results s room =
      remember_results-seen results (remember_results strip results s).1
        (remember_results-all_seen results s room)
