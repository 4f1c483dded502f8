-- ===== src/Search/Pushed.antt =====
-- What each condition that a search adds means, whatever arguments follow.
use jobs_scraper.Prelude.{
  ℕ, suc, ◌-◌, ◌≡◌, ◌∙◌, refl, ap, inl, inr, Bool, true, Bool-cases, not, ◌&&◌, Option, none, some,
  List, [], ◌∷◌, ◌++◌, append_assoc, length, get_elem?, if◌then◌else◌, arith, ◌==◌ as nat_beq,
}
use jobs_scraper.Prelude.Int.{ℤ, pos, ltb_ℤ}
use jobs_scraper.Prelude.Keys.{◌==◌, nat_eq, list_eq}
use jobs_scraper.Prelude.Text.{Text}
use jobs_scraper.Jobs.{Time, WorkplaceType, unknown, remote, hybrid, in_person}
use jobs_scraper.Search.{JobSearchParams, JobTypeFilter, any_type, intern, part_time, full_time}
use jobs_scraper.Search.Where.{
  Argument, a_time, a_text, a_workplace, a_number, Condition, matches_query, workplace_is,
  type_column, type_column_only, Where, push, only, push_query, push_workplace, push_type,
  push_positive, push_time, JobRow, argument, same_workplace, tag_count, holds, all_hold,
}

abbrev pub fits_workplace : WorkplaceType → JobRow → Bool
fits_workplace unknown row = true
fits_workplace remote row = same_workplace row.workplace_type remote
fits_workplace hybrid row = same_workplace row.workplace_type hybrid
fits_workplace in_person row = same_workplace row.workplace_type in_person

abbrev pub fits_type : JobTypeFilter → JobRow → Bool
fits_type any_type row = true
fits_type intern row = row.is_intern
fits_type part_time row = row.is_part_time && not row.is_intern
fits_type full_time row = row.is_full_time && not row.is_intern

abbrev pub fits_time : Option Time → (Time → Bool) → Bool
fits_time none test = true
fits_time (some t) test = test t

abbrev pub fits_amount : ℤ → (ℤ → Bool) → Bool
fits_amount x test = if ltb_ℤ (pos 0) x then test x else true

abbrev pub fits_tags : List Text → JobRow → Bool
fits_tags [] row = true
fits_tags (tag ∷ tags) row = nat_beq (tag_count (tag ∷ tags) row) (length (tag ∷ tags))

get_elem-append :
    (xs : List Argument) (a : Argument) (more : List Argument)
    → get_elem? ((xs ++ a ∷ []) ++ more) (length xs) ≡ some a
get_elem-append [] a more = refl
get_elem-append (x ∷ xs) a more = get_elem-append xs a more

pub argument-pushed :
    (xs : List Argument) (a : Argument) (more : List Argument)
    → argument ((xs ++ a ∷ []) ++ more) (suc (length xs)) ≡ some a
argument-pushed xs a more =
    let same : suc (length xs) - 1 ≡ length xs = omega arith in rw same (get_elem-append xs a more)

module _ (matches : Text → JobRow → Bool) (row : JobRow) where
  abbrev pub fits_query : Text → Bool
  fits_query query = if query == [] then true else matches query row

  pub all_hold-snoc :
      (args : List Argument) (cs : List Condition) (c : Condition)
      → all_hold matches args row (cs ++ c ∷ [])
        ≡ (all_hold matches args row cs && holds matches args row c)
  all_hold-snoc args [] c = ground arith
  all_hold-snoc args (d ∷ cs) c = ground (arith, all_hold-snoc args cs c)

  -- Whatever arguments are added later, the conditions so far mean this.
  abbrev pub Means : Where → Bool → Type 0
  Means w spec = (more : List Argument) → all_hold matches (w.args ++ more) row w.conditions ≡ spec

  pub push-Means :
      (a : Argument) (condition : ℕ → Condition) (w : Where) (spec value : Bool)
      → ((args : List Argument) (k : ℕ)
          → argument args k ≡ some a
          → holds matches args row (condition k) ≡ value)
      → Means w spec
      → Means (push a condition w) (spec && value)
  push-Means a condition w spec value reads h more =
      let args = (w.args ++ a ∷ []) ++ more in
      let k = suc (length w.args) in
      let before : all_hold matches args row w.conditions ≡ spec =
        ap (λ xs. all_hold matches xs row w.conditions) (append_assoc w.args (a ∷ []) more)
        ∙ h (a ∷ more) in
      all_hold-snoc args w.conditions (condition k)
      ∙ (ap (λ b. b && holds matches args row (condition k)) before
          ∙ ap (λ b. spec && b) (reads args k (argument-pushed w.args a more)))

  only-Means :
      (c : Condition) (w : Where) (spec value : Bool)
      → ((args : List Argument) → holds matches args row c ≡ value)
      → Means w spec
      → Means (only c w) (spec && value)
  only-Means c w spec value reads h more =
      all_hold-snoc (w.args ++ more) w.conditions c
      ∙ (ap (λ b. b && holds matches (w.args ++ more) row c) (h more)
          ∙ ap (λ b. spec && b) (reads (w.args ++ more)))

  pub same-Means : (w : Where) (spec : Bool) → Means w spec → Means w (spec && true)
  same-Means w spec h more = h more ∙ ground arith

  pub query-Means :
      (p : JobSearchParams) (w : Where) (spec : Bool)
      → Means w spec
      → Means (push_query p w) (spec && fits_query p.search_query)
  unfolding holds
  query-Means p w spec h = elim (Bool-cases (p.search_query == [])) [
    | inl empty ↦ rw empty (same-Means w spec h)
    | inr given ↦ rw given (
        push-Means (a_text p.search_query) (λ k. matches_query k) w spec
          (matches p.search_query row) (λ args k e. rw e refl) h)
  ]

  pub workplace-Means :
      (t : WorkplaceType) (w : Where) (spec : Bool)
      → Means w spec
      → Means (push_workplace t w) (spec && fits_workplace t row)
  unfolding holds
  workplace-Means unknown w spec h = same-Means w spec h
  workplace-Means remote w spec h =
      push-Means (a_workplace remote) (λ k. workplace_is k) w spec _ (λ args k e. rw e refl) h
  workplace-Means hybrid w spec h =
      push-Means (a_workplace hybrid) (λ k. workplace_is k) w spec _ (λ args k e. rw e refl) h
  workplace-Means in_person w spec h =
      push-Means (a_workplace in_person) (λ k. workplace_is k) w spec _ (λ args k e. rw e refl) h

  pub type-Means :
      (t : JobTypeFilter) (w : Where) (spec : Bool)
      → Means w spec
      → Means (push_type t w) (spec && fits_type t row)
  unfolding holds
  type-Means any_type w spec h = same-Means w spec h
  type-Means intern w spec h = only-Means (type_column intern) w spec _ (λ args. refl) h
  type-Means part_time w spec h = only-Means (type_column_only part_time) w spec _ (λ args. refl) h
  type-Means full_time w spec h = only-Means (type_column_only full_time) w spec _ (λ args. refl) h

  pub positive-Means :
      (x : ℤ) (condition : ℕ → Condition) (test : ℤ → Bool) (w : Where) (spec : Bool)
      → ((args : List Argument) (k : ℕ)
          → argument args k ≡ some (a_number x)
          → holds matches args row (condition k) ≡ test x)
      → Means w spec
      → Means (push_positive x condition w) (spec && fits_amount x test)
  positive-Means x condition test w spec reads h = elim (Bool-cases (ltb_ℤ (pos 0) x)) [
    | inl set ↦ rw set (push-Means (a_number x) condition w spec (test x) reads h)
    | inr unset ↦ rw unset (same-Means w spec h)
  ]

  pub time-Means :
      (o : Option Time) (condition : ℕ → Condition) (test : Time → Bool) (w : Where) (spec : Bool)
      → ((t : Time) (args : List Argument) (k : ℕ)
          → argument args k ≡ some (a_time t)
          → holds matches args row (condition k) ≡ test t)
      → Means w spec
      → Means (push_time o condition w) (spec && fits_time o test)
  time-Means none condition test w spec reads h = same-Means w spec h
  time-Means (some t) condition test w spec reads h =
      push-Means (a_time t) condition w spec (test t) (reads t) h
