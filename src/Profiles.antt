-- ===== src/Profiles.antt =====
-- The sections of a profile: education, skills, work experience and its bullets
-- (backend/database/profile_education.go, profile_skills.go and profile_work_experience.go). Each
-- statement takes whether the database runs it.
pub mod Store
pub mod Handlers
pub mod Moves
pub mod Served
pub mod Unique
pub mod Owners
pub mod Failures
pub mod Errors
mod Tests
use jobs_scraper.Prelude.{
  ℕ, ◌^◌, ◌≡◌, Bool, true, false, not, ◌&&◌, ◌||◌, Option, none, some, List, [], ◌∷◌, ◌++◌, keep,
  if◌then◌else◌, ◌==◌ as nat_beq,
}
use jobs_scraper.Prelude.Int.{ℤ}
use jobs_scraper.Prelude.Keys.{Eq, ◌==◌, nat_eq, list_eq, member}
use jobs_scraper.Prelude.Text.{Text, codes}
use jobs_scraper.Rows.{
  Row, Rows, Reply, ok, invalid_input, no_rows, broken, no_rows_yet, is_owned, first_row,
  delete_row, upsert_row, update_row,
}

-- What the model takes from libraries: the grades, and `time.Parse` of a day with its error's text.
pub record Columns : Type 1 where
  pub Gpa : Type 0
  pub parse_day : Text → Option ℕ
  pub day_error : Text → Text

pub data JobType : Type 0 where
  job_type_unknown job_type_contract job_type_internship job_type_part_time job_type_full_time :
      JobType

unfoldable pub parse_job_type : Text → Option JobType
parse_job_type s =
    if s == [] || s == codes "unknown"
    then some job_type_unknown
    else if s == codes "contract"
    then some job_type_contract
    else if s == codes "internship"
    then some job_type_internship
    else if s == codes "part_time"
    then some job_type_part_time
    else if s == codes "full_time"
    then some job_type_full_time
    else none

unfoldable pub job_type_string : JobType → Text
job_type_string job_type_contract = codes "contract"
job_type_string job_type_internship = codes "internship"
job_type_string job_type_part_time = codes "part_time"
job_type_string job_type_full_time = codes "full_time"
job_type_string job_type_unknown = codes "unknown"

abbrev pub type_or_unknown : Option JobType → JobType
type_or_unknown none = job_type_unknown
type_or_unknown (some t) = t

-- The string that `MarshalJSON` encodes, and what `UnmarshalJSON` makes of a decoded one.
abbrev pub marshal_job_type : JobType → Text
marshal_job_type = job_type_string

abbrev pub unmarshal_job_type : Text → JobType
unmarshal_job_type s = type_or_unknown (parse_job_type s)

-- `nil` for the empty text.
abbrev pub optional_text : Text → Option Text
optional_text s = if s == [] then none else some s

pub record AddWorkExperienceRequest : Type 0 where
  pub company : Text
  pub job_title : Text
  pub job_type : Text
  pub location : Text
  pub start_date : Text
  pub end_date : Text

pub record WorkExperience : Type 0 where
  pub company : Text
  pub job_title : Text
  pub job_type : JobType
  pub location : Option Text
  pub start_date : Option ℕ
  pub end_date : Option ℕ

pub record Bullet : Type 0 where
  pub bullet : Text
  pub position : ℤ

-- The columns of the unique indexes.
abbrev pub skill_key : Text → Option Text
skill_key skill = some skill

abbrev pub bullet_key : Bullet → Option Text
bullet_key b = some b.bullet

abbrev pub work_key_of : Text → Text → Option ℕ → Option (List (List ℕ))
work_key_of company job_title none = none
work_key_of company job_title (some day) = some (company ∷ job_title ∷ (day ∷ []) ∷ [])

-- An entry without a start date has no key: its column is NULL.
abbrev pub work_key : WorkExperience → Option (List (List ℕ))
work_key w = work_key_of w.company w.job_title w.start_date

-- A value, or the message of an invalid input.
pub data Valid (A : Type 0) : Type 0 where
  valid : A → Valid A
  invalid : Text → Valid A

abbrev pub and_then : {A B : Type 0} → Valid A → (A → Valid B) → Valid B
and_then (valid a) next = next a
and_then (invalid message) next = invalid message

module _ (c : Columns) where
  pub record AddEducationRequest : Type 0 where
    pub school_name : Text
    pub major : Text
    pub degree : Text
    pub gpa : Option c.Gpa
    pub start_date : Text
    pub end_date : Text

  pub record Education : Type 0 where
    pub school_name : Text
    pub major : Text
    pub degree : Text
    pub gpa : Option c.Gpa
    pub start_date : Option ℕ
    pub end_date : Option ℕ

  abbrev pub education_key : Education → Option (List Text)
  education_key e = some (e.school_name ∷ e.major ∷ e.degree ∷ [])

  abbrev pub day_or : Text → Text → Option ℕ → Valid (Option ℕ)
  day_or column raw none = invalid (codes "invalid " ++ column ++ codes ": " ++ c.day_error raw)
  day_or column raw (some day) = valid (some day)

  -- `parseOptionalDate`, with the message that its callers put before its error.
  unfoldable pub parse_optional_date : Text → Text → Valid (Option ℕ)
  parse_optional_date column raw =
      if raw == [] then valid none else day_or column raw (c.parse_day raw)

  unfoldable pub check_education : AddEducationRequest → Valid Education
  check_education req =
      if req.school_name == [] || (req.major == [] || req.degree == [])
      then invalid (codes "school_name, major, and degree are required")
      else and_then (parse_optional_date (codes "start_date") req.start_date) λ start_date.
        and_then (parse_optional_date (codes "end_date") req.end_date) λ end_date. valid (record {
          school_name = req.school_name;
          major = req.major;
          degree = req.degree;
          gpa = req.gpa;
          start_date = start_date;
          end_date = end_date;
        })

  abbrev pub type_or : Text → Option JobType → Valid JobType
  type_or raw none = invalid (codes "invalid job_type: " ++ raw)
  type_or raw (some t) = valid t

  unfoldable pub check_work_experience : AddWorkExperienceRequest → Valid WorkExperience
  check_work_experience req =
      if req.company == [] || req.job_title == []
      then invalid (codes "company and job_title are required")
      else and_then (type_or req.job_type (parse_job_type req.job_type)) λ job_type.
        and_then (parse_optional_date (codes "start_date") req.start_date) λ start_date.
          and_then (parse_optional_date (codes "end_date") req.end_date) λ end_date. valid (record {
            company = req.company;
            job_title = req.job_title;
            job_type = job_type;
            location = optional_text req.location;
            start_date = start_date;
            end_date = end_date;
          })

  pub record Sections : Type 0 where
    pub education : Rows Education
    pub skills : Rows Text
    pub work : Rows WorkExperience
    pub bullets : Rows Bullet

  abbrev pub no_sections : Sections
  no_sections = record {
    education = no_rows_yet;
    skills = no_rows_yet;
    work = no_rows_yet;
    bullets = no_rows_yet;
  }
