-- ===== src/Search/Where.antt =====
-- The conditions of a search and their arguments (backend/database/indexer.go:
-- buildJobSearchWhere, and the page that buildJobSearchSelect asks for). A condition names its
-- arguments by number, as `$1` does.
use jobs_scraper.Prelude.{
  ℕ, suc, ◌-◌, Bool, true, false, not, ◌&&◌, ◌||◌, Option, none, some, List, [], ◌∷◌, ◌++◌, map,
  keep, length, get_elem?, leb, ltb, if◌then◌else◌, ◌==◌ as nat_beq,
}
use jobs_scraper.Prelude.Int.{ℤ, pos, ltb_ℤ, max_ℤ}
use jobs_scraper.Prelude.Keys.{◌==◌, nat_eq, list_eq, member}
use jobs_scraper.Prelude.Text.{Text}
use jobs_scraper.Jobs.{Time, WorkplaceType, unknown, remote, hybrid, in_person}
use jobs_scraper.Search.{
  JobSearchParams, JobTypeFilter, any_type, intern, part_time, full_time, default_search_limit,
  max_search_limit,
}

pub data Argument : Type 0 where
  a_time : Time → Argument
  a_text : Text → Argument
  a_workplace : WorkplaceType → Argument
  a_number : ℤ → Argument

pub data Condition : Type 0 where
  age_from matches_query workplace_is salary_max_from salary_min_to posted_after seen_after :
      ℕ → Condition
  type_column : JobTypeFilter → Condition
  type_column_only : JobTypeFilter → Condition
  has_tags : List ℕ → ℕ → Condition

pub record Where : Type 0 where
  pub conditions : List Condition
  pub args : List Argument

-- One argument, and a condition on its number.
abbrev pub push : Argument → (ℕ → Condition) → Where → Where
push a condition w = record {
  conditions = w.conditions ++ condition (suc (length w.args)) ∷ [];
  args = w.args ++ a ∷ [];
}

abbrev pub only : Condition → Where → Where
only condition w = record { conditions = w.conditions ++ condition ∷ []; args = w.args }

abbrev pub numbers_from : ℕ → List Text → List ℕ
numbers_from k [] = []
numbers_from k (tag ∷ tags) = k ∷ numbers_from (suc k) tags

abbrev pub push_tags : List Text → Where → Where
push_tags tags w = record {
  conditions =
      w.conditions ++ has_tags (numbers_from (suc (length w.args)) tags) (length tags) ∷ [];
  args = w.args ++ map (λ t. a_text t) tags;
}

abbrev pub push_query : JobSearchParams → Where → Where
push_query p w =
    if p.search_query == [] then w else push (a_text p.search_query) (λ k. matches_query k) w

abbrev pub push_workplace : WorkplaceType → Where → Where
push_workplace unknown w = w
push_workplace remote w = push (a_workplace remote) (λ k. workplace_is k) w
push_workplace hybrid w = push (a_workplace hybrid) (λ k. workplace_is k) w
push_workplace in_person w = push (a_workplace in_person) (λ k. workplace_is k) w

-- An internship takes precedence over the other types.
abbrev pub push_type : JobTypeFilter → Where → Where
push_type any_type w = w
push_type intern w = only (type_column intern) w
push_type part_time w = only (type_column_only part_time) w
push_type full_time w = only (type_column_only full_time) w

abbrev pub push_positive : ℤ → (ℕ → Condition) → Where → Where
push_positive amount condition w =
    if ltb_ℤ (pos 0) amount then push (a_number amount) condition w else w

abbrev pub push_time : Option Time → (ℕ → Condition) → Where → Where
push_time none condition w = w
push_time (some t) condition w = push (a_time t) condition w

abbrev pub push_any_tags : List Text → Where → Where
push_any_tags [] w = w
push_any_tags (tag ∷ tags) w = push_tags (tag ∷ tags) w

-- `cutoff` is the time `JobMaxAge` ago, and `seen` the digest's `FirstSeenAfter`.
unfoldable pub build_job_search_where : Time → Option Time → JobSearchParams → Where
build_job_search_where cutoff seen p = push_any_tags p.tags (
    push_time seen (λ k. seen_after k)
      (push_time p.posted_after (λ k. posted_after k)
        (push_positive p.max_salary (λ k. salary_min_to k)
          (push_positive p.min_salary (λ k. salary_max_from k)
            (push_type p.job_type (
              push_workplace p.workplace_type (
                push_query p (
                  push (a_time cutoff) (λ k. age_from k)
                    (record { conditions = []; args = [] })))))))))

-- A row of the table of jobs with its tags, which are distinct. `age` is `jobAgeColumn`.
pub record JobRow : Type 0 where
  pub age : Time
  pub workplace_type : WorkplaceType
  pub is_intern : Bool
  pub is_part_time : Bool
  pub is_full_time : Bool
  pub salary_min : Option ℤ
  pub salary_max : Option ℤ
  pub posted_at : Option Time
  pub first_seen_at : Time
  pub tags : List Text

abbrev pub argument : List Argument → ℕ → Option Argument
argument args k = get_elem? args (k - 1)

abbrev pub same_workplace : WorkplaceType → WorkplaceType → Bool
same_workplace unknown unknown = true
same_workplace remote remote = true
same_workplace hybrid hybrid = true
same_workplace in_person in_person = true
same_workplace a b = false

abbrev pub flag_of : JobTypeFilter → JobRow → Bool
flag_of any_type row = true
flag_of intern row = row.is_intern
flag_of part_time row = row.is_part_time
flag_of full_time row = row.is_full_time

-- A comparison with NULL is not true.
abbrev pub at_least : Option ℤ → ℤ → Bool
at_least none x = false
at_least (some y) x = not (ltb_ℤ y x)

abbrev pub at_most : Option ℤ → ℤ → Bool
at_most none x = false
at_most (some y) x = not (ltb_ℤ x y)

abbrev pub later_than : Option Time → Time → Bool
later_than none t = false
later_than (some s) t = ltb t s

abbrev pub text_list : List (Option Argument) → List Text
text_list [] = []
text_list (some (a_text t) ∷ rest) = t ∷ text_list rest
text_list (some (a_time t) ∷ rest) = text_list rest
text_list (some (a_workplace w) ∷ rest) = text_list rest
text_list (some (a_number x) ∷ rest) = text_list rest
text_list (none ∷ rest) = text_list rest

-- `COUNT(DISTINCT t.tag)` over the job's tags that are listed.
abbrev pub tag_count : List Text → JobRow → ℕ
tag_count wanted row = length (keep (λ t. member t wanted) row.tags)

-- `search_vector @@ plainto_tsquery` is `matches`.
module _ (matches : Text → JobRow → Bool) where
  abbrev pub on_time : (Time → Bool) → Option Argument → Bool
  on_time test none = false
  on_time test (some (a_time t)) = test t
  on_time test (some (a_text t)) = false
  on_time test (some (a_workplace w)) = false
  on_time test (some (a_number x)) = false

  abbrev pub on_number : (ℤ → Bool) → Option Argument → Bool
  on_number test none = false
  on_number test (some (a_number x)) = test x
  on_number test (some (a_time t)) = false
  on_number test (some (a_text t)) = false
  on_number test (some (a_workplace w)) = false

  abbrev pub on_text : (Text → Bool) → Option Argument → Bool
  on_text test none = false
  on_text test (some (a_text t)) = test t
  on_text test (some (a_time t)) = false
  on_text test (some (a_workplace w)) = false
  on_text test (some (a_number x)) = false

  abbrev pub on_workplace : (WorkplaceType → Bool) → Option Argument → Bool
  on_workplace test none = false
  on_workplace test (some (a_workplace w)) = test w
  on_workplace test (some (a_time t)) = false
  on_workplace test (some (a_text t)) = false
  on_workplace test (some (a_number x)) = false

  -- What a condition says of a row.
  unfoldable pub holds : List Argument → JobRow → Condition → Bool
  holds args row (age_from k) = on_time (λ t. leb t row.age) (argument args k)
  holds args row (matches_query k) = on_text (λ t. matches t row) (argument args k)
  holds args row (workplace_is k) =
      on_workplace (λ w. same_workplace row.workplace_type w) (argument args k)
  holds args row (salary_max_from k) = on_number (λ x. at_least row.salary_max x) (argument args k)
  holds args row (salary_min_to k) = on_number (λ x. at_most row.salary_min x) (argument args k)
  holds args row (posted_after k) = on_time (λ t. later_than row.posted_at t) (argument args k)
  holds args row (seen_after k) = on_time (λ t. ltb t row.first_seen_at) (argument args k)
  holds args row (type_column type) = flag_of type row
  holds args row (type_column_only type) = flag_of type row && not row.is_intern
  holds args row (has_tags ks count) =
      nat_beq (tag_count (text_list (map (λ k. argument args k) ks)) row) count

  abbrev pub all_hold : List Argument → JobRow → List Condition → Bool
  all_hold args row [] = true
  all_hold args row (c ∷ cs) = holds args row c && all_hold args row cs

  -- `WHERE`
  abbrev pub selects : Where → JobRow → Bool
  selects w row = all_hold w.args row w.conditions

-- The limit and the offset of the page.
unfoldable pub page_limit : JobSearchParams → ℤ
page_limit p =
    if not (ltb_ℤ (pos 0) p.limit) || ltb_ℤ (pos max_search_limit) p.limit
    then pos default_search_limit
    else p.limit

unfoldable pub page_offset : JobSearchParams → ℤ
page_offset p = max_ℤ p.offset (pos 0)
