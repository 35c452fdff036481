-- ===== src/Subscriptions/Again.antt =====
-- A subscription that is made is found when it is made again.
use togo.Common.{
  ℕ, suc, ◌≡◌, refl, String, Bool, true, false, not, ◌&&◌, ◌||◌, Option, none, some, List, [], ◌∷◌,
  ◌++◌, arith, any, first?, str_eq, text_refl,
}
use togo.Episodes.{Media, movie, tv}
use togo.Scheduling.{Payloads}
use togo.Subscriptions.{
  Held, Payload, Table, inserted_row, same_media, is_indexed, collides, hides, is_of_tmdb,
  duplicate_subscription,
}
use togo.Subscriptions.Calls.{new_row, insert_subscription_payload}

first?-append :
    {A : Type 0} (p : A → Bool) (xs : List A) (a : A)
    → first? p xs ≡ none
    → p a ≡ true
    → first? p (xs ++ a ∷ []) ≡ some a
first?-append p [] a h k = rw k refl
first?-append p (x ∷ xs) a h k = ground (arith, h, k, first?-append p xs a)

first?-head :
    {A : Type 0} (p : A → Bool) (x : A) (xs : List A) → first? p (x ∷ xs) ≡ none → p x ≡ false
first?-head p x xs h = ground (arith, h)

first?-tail :
    {A : Type 0} (p : A → Bool) (x : A) (xs : List A)
    → first? p (x ∷ xs) ≡ none
    → first? p xs ≡ none
first?-tail p x xs h = ground (arith, h)

both_false : {a b : Bool} → a ≡ false → b ≡ false → (a || b) ≡ false
both_false e f = rw (e, f) refl

narrower : (n s b m k : Bool) → (n && m && k) ≡ false → ((n && s) && b && m && k) ≡ false
narrower n s b m k h = ground (arith, h)

same_media_refl : (m : Media) → same_media m m ≡ true
same_media_refl movie = refl
same_media_refl tv = refl

module _ {C : Type 0} (fullmatch : String → Option (ℕ × ℕ)) (compact : String → String)
    (normal : C → C) (title_year : String → Option ℕ) (payloads : Payloads)
    (sync : ℕ → Table C → Table C) where
  abbrev pub row_for : ℕ → Payload C → Table C → Held C
  row_for now p t = new_row fullmatch compact normal title_year payloads sync (suc t.last_id) now p

  no_collision :
      (now : ℕ) (p : Payload C) (t : Table C) (rows : List (Held C))
      → first? (is_of_tmdb fullmatch compact p) rows ≡ none
      → any (collides (row_for now p t)) rows ≡ false
  no_collision now p t [] h = refl
  no_collision now p t (r ∷ rows) h =
      both_false
        (narrower (not (str_eq p.tmdb_id "")) (not (str_eq "active" "completed")) (is_indexed r)
          (same_media p.media_type r.tracked.base.media_type) (str_eq r.tracked.tmdb_id p.tmdb_id)
          (first?-head (is_of_tmdb fullmatch compact p) r rows h))
        (no_collision now p t rows (first?-tail (is_of_tmdb fullmatch compact p) r rows h))

  -- When no subscription has the type and the TMDB id of a payload, its row is inserted as the next one,
  -- and the test for duplicates then answers just that row and changes nothing, unless the library has
  -- all of it.
  pub duplicate_subscription-insert_subscription_payload :
      (now later : ℕ) (p : Payload C) (t : Table C)
      → str_eq p.tmdb_id "" ≡ false
      → first? (is_of_tmdb fullmatch compact p) t.rows ≡ none
      → hides fullmatch compact (row_for now p t) ≡ false
      → let (answer, u) =
          insert_subscription_payload fullmatch compact normal title_year payloads sync now p t in
        (answer ≡ inserted_row (suc t.last_id))
        × (duplicate_subscription fullmatch compact later p u ≡ (some (row_for now p t), u))
  unfolding insert_subscription_payload duplicate_subscription
  duplicate_subscription-insert_subscription_payload now later p t named fresh shown =
      let row = row_for now p t in
      let free : any (collides row) t.rows ≡ false = no_collision now p t t.rows fresh in
      let fits : is_of_tmdb fullmatch compact p row ≡ true =
        ground (arith, named, same_media_refl p.media_type, text_refl p.tmdb_id) in
      let found : first? (is_of_tmdb fullmatch compact p) (t.rows ++ row ∷ []) ≡ some row =
        first?-append (is_of_tmdb fullmatch compact p) t.rows row fresh fits in
      rw (free, found, shown) (refl, refl)
