-- ===== src/Matching/Explained.antt =====
-- The reasons agree with the test that they explain.
use togo.Common.{
  String, ◌≡◌, refl, Bool, true, false, not, ◌||◌, Option, none, some, List, [], ◌∷◌, arith,
  if◌then◌else◌, all, is_some, coalesce, inl, inr, Bool-cases, str_eq,
}
use togo.Library.{Tracked}
use togo.Matching.{
  Texts, Reason, empty_text, title_conflict, year_mismatch, ids_known, id_listed, title_found,
  Result, Term, is_ed2k, found_in, keyword_reason, tmdb_or_title_matches, tmdb_title_skip_reason,
  quality_rule_skip_reason, result_matches_subscription, mismatch_reason,
}

module _ (t : Texts) where
  keyword_reason-all :
      (text : String) (terms : List Term)
      → not (is_some (keyword_reason t text terms)) ≡ all (found_in t text) terms
  keyword_reason-all text [] = refl
  keyword_reason-all text (term ∷ terms) = elim (Bool-cases (found_in t text term)) [
    | inl e ↦ rw e (keyword_reason-all text terms)
    | inr e ↦ rw e refl
  ]

  tmdb_title-matches :
      (s : Tracked) (text : String) (term : Option Term)
      → not (is_some (tmdb_title_skip_reason t s text term)) ≡ tmdb_or_title_matches t s text term
  tmdb_title-matches s text term =
      let i = t.subscription_id s in
      let ids = t.tmdb_ids text in
      elim (Bool-cases (ids_known i ids)) [
        | inl k ↦ elim (Bool-cases (id_listed i ids)) [
          | inl e ↦ rw (k, e) refl
          | inr e ↦ rw (k, e) refl
        ]
        | inr k ↦ elim (Bool-cases (title_found t term text)) [
          | inl e ↦ rw (k, e) refl
          | inr e ↦ rw (k, e) refl
        ]
      ]

  is_some-coalesce :
      {A : Type 0} (a b : Option A) → is_some (coalesce a b) ≡ (is_some a || is_some b)
  is_some-coalesce none b = refl
  is_some-coalesce (some a) b = refl

  -- The four tests that come before the terms, and the reasons that they give.
  guarded :
      (a b c : Bool) (matches : Bool) (reason : Option Reason) (x y z : Reason)
      → matches ≡ not (is_some reason)
      → (if a then false else if b then false else if not c then false else matches)
        ≡ not
            (is_some (if a then some x else if b then some y else if not c then some z else reason))
  guarded true b c matches reason x y z h = refl
  guarded false true c matches reason x y z h = refl
  guarded false false false matches reason x y z h = refl
  guarded false false true matches reason x y z h = h

  -- A result that is no ed2k link with a title matches a subscription exactly when there is no reason
  -- against it, its episodes left aside.
  pub result_matches_subscription-mismatch_reason :
      (s : Tracked) (r : Result) (extra : List String)
      → is_ed2k t r ≡ false
      → result_matches_subscription t s r extra ≡ not (is_some (mismatch_reason t s r extra))
  unfolding result_matches_subscription mismatch_reason
  result_matches_subscription-mismatch_reason s r extra plain =
      let text = t.match_text r extra in
      let terms = t.required_terms s in
      let same = tmdb_title-matches s text terms.0 in
      let words = keyword_reason-all text terms.1 in
      rw plain (
        guarded (str_eq text "") (t.title_conflicts s r) (t.year_matches s r text) _ _ empty_text
          title_conflict year_mismatch
          (ground (
            arith,
            same,
            words,
            is_some-coalesce (tmdb_title_skip_reason t s text terms.0)
                (coalesce (keyword_reason t text terms.1) (quality_rule_skip_reason t s r extra)),
            is_some-coalesce (keyword_reason t text terms.1) (quality_rule_skip_reason t s r extra),
          )))
