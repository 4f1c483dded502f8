-- ===== src/Jobs.antt =====
-- A job posting and its kind of workplace (backend/jobs/job.go).
pub mod Workplace
mod Tests
use jobs_scraper.Prelude.{ℕ, ◌≡◌, Bool, true, false, ◌||◌, Option, List, [], ◌∷◌, if◌then◌else◌}
use jobs_scraper.Prelude.Int.{ℤ}
use jobs_scraper.Prelude.Keys.{◌==◌, nat_eq, list_eq, member}
use jobs_scraper.Prelude.Text.{Text, Unicode, codes, to_lower, trim_space, contains}

pub data WorkplaceType : Type 0 where
  unknown remote hybrid in_person : WorkplaceType

-- The `switch` of `ParseWorkplaceType` on the folded text.
read_workplace : Text → WorkplaceType × Bool
read_workplace s =
    if s == []
    then (unknown, true)
    else if s == codes "remote"
    then (remote, true)
    else if s == codes "hybrid"
    then (hybrid, true)
    else if member s (
        codes "in_person"
        ∷ codes "in-person"
        ∷ codes "inperson"
        ∷ codes "onsite"
        ∷ codes "on-site"
        ∷ codes "on_site"
        ∷ [])
    then (in_person, true)
    else (unknown, false)

unfoldable pub parse_workplace_type : Unicode → Text → WorkplaceType × Bool
unfolding read_workplace
parse_workplace_type u s = read_workplace (to_lower u (trim_space s))

unfoldable pub workplace_from_location : Unicode → Text → WorkplaceType
workplace_from_location u location =
    if contains (to_lower u location) (codes "remote") then remote else unknown

unfoldable pub workplace_string : WorkplaceType → Text
workplace_string remote = codes "remote"
workplace_string hybrid = codes "hybrid"
workplace_string in_person = codes "in_person"
workplace_string unknown = codes "unknown"

-- The string that `MarshalJSON` encodes, and what `UnmarshalJSON` makes of a decoded string.
unfoldable pub marshal_workplace : WorkplaceType → Text
unfolding workplace_string
marshal_workplace w = workplace_string w

unfoldable pub unmarshal_workplace : Unicode → Text → WorkplaceType
unfolding parse_workplace_type
unmarshal_workplace u s = (parse_workplace_type u s).0

-- `MinSalary`
abbrev pub min_salary : ℕ
min_salary = 1000

-- An instant in nanoseconds since the zero time, which is 0.
abbrev pub Time : Type 0
Time = ℕ

-- The fields that a source fills in; the database adds `ID`, `MatchScore`, `MatchPercent` and
-- `Applied` to what it returns.
pub record Job : Type 0 where
  pub title : Text
  pub company : Text
  pub location : Text
  pub workplace_type : WorkplaceType
  pub tags : List Text
  pub salary_min : Option ℤ
  pub salary_max : Option ℤ
  pub posted_at : Time
  pub url : Text
  pub description : Text
