-- ===== src/Tailoring.antt =====
-- Tailoring a resume to a job (backend/llm/tailoring.go): the model's answer gives wording, order and
-- source ids, and everything else is taken from the candidate's resume. A nil slice and an empty one
-- are the same list here, so `nonNil` leaves no trace.
pub mod Ids
pub mod Grounded
pub mod Roles
pub mod Projects
pub mod Skills
mod Tests
use jobs_scraper.Prelude.{
  ℕ, zero, suc, ◌≡◌, Bool, true, false, not, ◌&&◌, ◌||◌, Option, none, some, List, [], ◌∷◌, ◌++◌,
  map, length, get_elem?, leb, ltb, ◌==◌ as nat_beq, if◌then◌else◌,
}
use jobs_scraper.Prelude.Int.{ℤ, pos, negsuc, ltb_ℤ, eqb_ℤ}
use jobs_scraper.Prelude.Keys.{◌==◌, nat_eq, list_eq, member, lookup, insert}
use jobs_scraper.Prelude.Text.{
  Text, Unicode, codes, to_lower, trim_space, trim, cut, cut_prefix, atoi, itoa, is_some,
}

pub record EducationEntry : Type 0 where
  pub school_name : Text
  pub degree : Text
  pub major : Text
  pub start_date : Text
  pub end_date : Text

pub record WorkExperienceEntry : Type 0 where
  pub company : Text
  pub job_title : Text
  pub location : Text
  pub start_date : Text
  pub end_date : Text
  pub bullets : List Text

pub record ProjectEntry : Type 0 where
  pub name : Text
  pub url : Text
  pub technologies : List Text
  pub bullets : List Text

pub record ExtractedResume : Type 0 where
  pub full_name : Text
  pub email : Text
  pub phone : Text
  pub linked_in : Text
  pub git_hub : Text
  pub portfolio : Text
  pub summary : Text
  pub skills : List Text
  pub education : List EducationEntry
  pub work_experience : List WorkExperienceEntry
  pub projects : List ProjectEntry

pub record TailoredBullet : Type 0 where
  pub text : Text
  pub source : Text

pub record TailoredWorkExperience : Type 0 where
  pub company : Text
  pub job_title : Text
  pub location : Text
  pub start_date : Text
  pub end_date : Text
  pub bullets : List TailoredBullet

pub record TailoredProject : Type 0 where
  pub name : Text
  pub url : Text
  pub technologies : List Text
  pub bullets : List TailoredBullet

pub record TailoredResume : Type 0 where
  pub full_name : Text
  pub email : Text
  pub phone : Text
  pub linked_in : Text
  pub git_hub : Text
  pub portfolio : Text
  pub summary : Text
  pub skills : List Text
  pub education : List EducationEntry
  pub work_experience : List TailoredWorkExperience
  pub projects : List TailoredProject

pub record TailoredSection : Type 0 where
  pub source : Text
  pub bullets : List TailoredBullet

pub record TailoringResult : Type 0 where
  pub summary : Text
  pub skills : List Text
  pub work_experience : List TailoredSection
  pub projects : List TailoredSection

pub record SectionBullets : Type 0 where
  pub index : ℕ
  pub bullets : List TailoredBullet

unfoldable pub bullet_id : Text → ℕ → ℕ → Text
bullet_id prefix index bullet = prefix ++ (itoa index ++ (codes ".B" ++ itoa bullet))

abbrev nonneg : Option ℤ → Option ℕ
nonneg none = none
nonneg (some (pos n)) = some n
nonneg (some (negsuc n)) = none

-- The digits behind the prefix.
abbrev index_of_digits : Option Text → Option ℕ
index_of_digits none = none
index_of_digits (some []) = none
index_of_digits (some (c ∷ digits)) = nonneg (atoi (c ∷ digits))

unfoldable pub parse_index : Text → Text → Option ℕ
parse_index s prefix = index_of_digits (cut_prefix s prefix)

abbrev with_bullet : ℕ → Option ℕ → Option (ℕ × ℤ)
with_bullet section none = none
with_bullet section (some bullet) = some (section, pos bullet)

abbrev read_bullet : Option ℕ → Option Text → Option (ℕ × ℤ)
read_bullet none bullet_part = none
read_bullet (some section) none = some (section, negsuc 0)
read_bullet (some section) (some bullet_part) =
    with_bullet section (parse_index bullet_part (codes "B"))

-- "W3" has the bullet -1, "W3.B1" the bullet 1.
unfoldable pub parse_source_id : Text → Text → Option (ℕ × ℤ)
unfolding parse_index
parse_source_id id prefix =
    let (section_part, bullet_part) = cut (trim (trim_space id) (codes "[]")) b'.' in
    read_bullet (parse_index section_part prefix) bullet_part

-- The section that an id names, if it names no bullet, is one of the resume's, and is new.
abbrev pub fresh_section : ℕ → List ℕ → Option (ℕ × ℤ) → Option ℕ
fresh_section sections seen none = none
fresh_section sections seen (some (index, bullet)) =
    if not (eqb_ℤ bullet (negsuc 0)) || (leb sections index || member index seen)
    then none
    else some index

-- The bullet that an id names, if it is one of the section's `count` bullets.
abbrev pub own_bullet : ℕ → ℕ → Option (ℕ × ℤ) → Option ℕ
own_bullet index count none = none
own_bullet index count (some (src_index, negsuc n)) = none
own_bullet index count (some (src_index, pos b)) =
    if not (nat_beq src_index index) || leb count b then none else some b

abbrev push_bullet : Text → ℕ → Text → Option ℕ → List TailoredBullet → List TailoredBullet
push_bullet prefix index text none kept = kept
push_bullet prefix index [] (some bullet) kept = kept
push_bullet prefix index (c ∷ text) (some bullet) kept =
    record { text = c ∷ text; source = bullet_id prefix index bullet } ∷ kept

unfoldable pub kept_bullets : Text → ℕ → ℕ → List TailoredBullet → List TailoredBullet
kept_bullets prefix index count [] = []
kept_bullets prefix index count (b ∷ bullets) =
    push_bullet prefix index (trim_space b.text)
      (own_bullet index count (parse_source_id b.source prefix))
      (kept_bullets prefix index count bullets)

-- `originals[index]`, read where the index is in range.
abbrev pub bullets_at : List (List Text) → ℕ → List Text
bullets_at originals index = elim (get_elem? originals index) [ none ↦ [] | some bullets ↦ bullets ]

-- The loop of `validSections`.
unfoldable pub sections_from :
    Text → List (List Text) → List TailoredSection → List ℕ → List SectionBullets
sections_from prefix originals [] seen = []
sections_from prefix originals (s ∷ sections) seen =
    elim (fresh_section (length originals) seen (parse_source_id s.source prefix)) [
      | none ↦ sections_from prefix originals sections seen
      | some index ↦
          record {
            index = index;
            bullets = kept_bullets prefix index (length (bullets_at originals index)) s.bullets;
          }
          ∷ sections_from prefix originals sections (index ∷ seen)
    ]

unfoldable pub valid_sections : List TailoredSection → Text → List (List Text) → List SectionBullets
valid_sections sections prefix originals = sections_from prefix originals sections []

unfoldable pub original_from : Text → ℕ → ℕ → List Text → List TailoredBullet
original_from prefix index j [] = []
original_from prefix index j (bullet ∷ bullets) =
    record { text = bullet; source = bullet_id prefix index j }
    ∷ original_from prefix index (suc j) bullets

unfoldable pub original_bullets : Text → ℕ → List Text → List TailoredBullet
unfolding original_from
original_bullets prefix index bullets = original_from prefix index 0 bullets

-- `byRole[i]`: no entry is written twice, so the first one found is the only one.
abbrev pub by_role : ℕ → List SectionBullets → List TailoredBullet
by_role i [] = []
by_role i (s ∷ sections) = if nat_beq s.index i then s.bullets else by_role i sections

-- The model's bullets, or the original ones if it kept none.
abbrev pub or_original : Text → ℕ → List Text → List TailoredBullet → List TailoredBullet
or_original prefix index originals [] = original_bullets prefix index originals
or_original prefix index originals (b ∷ bullets) = b ∷ bullets

unfoldable pub tailored_roles :
    List SectionBullets → ℕ → List WorkExperienceEntry → List TailoredWorkExperience
tailored_roles sections i [] = []
tailored_roles sections i (we ∷ roles) =
    record {
      company = we.company;
      job_title = we.job_title;
      location = we.location;
      start_date = we.start_date;
      end_date = we.end_date;
      bullets = or_original (codes "W") i we.bullets (by_role i sections);
    }
    ∷ tailored_roles sections (suc i) roles

abbrev pub tailored_project : SectionBullets → ProjectEntry → TailoredProject
tailored_project s proj = record {
  name = proj.name;
  url = proj.url;
  technologies = proj.technologies;
  bullets = or_original (codes "P") s.index proj.bullets s.bullets;
}

unfoldable pub tailored_projects : List ProjectEntry → List SectionBullets → List TailoredProject
tailored_projects projects [] = []
tailored_projects projects (s ∷ sections) = elim (get_elem? projects s.index) [
  | none ↦ tailored_projects projects sections
  | some proj ↦ tailored_project s proj ∷ tailored_projects projects sections
]

module _ (u : Unicode) where
  abbrev pub skill_key : Text → Text
  skill_key skill = to_lower u (trim_space skill)

  -- The loop that fills `canonical`: the first spelling of a key stays.
  unfoldable pub canonical_from : List Text → List (Text × Text) → List (Text × Text)
  canonical_from [] canonical = canonical
  canonical_from (skill ∷ original) canonical =
      let key = skill_key skill in
      canonical_from original (
        if not (key == []) && not (is_some (lookup key canonical))
        then insert key skill canonical
        else canonical)

  unfoldable pub chosen_from : List (Text × Text) → List Text → List Text → List Text
  chosen_from canonical [] seen = []
  chosen_from canonical (skill ∷ chosen) seen = elim (lookup (skill_key skill) canonical) [
    | none ↦ chosen_from canonical chosen seen
    | some spelled ↦ elim (member (skill_key skill) seen) [
      | true ↦ chosen_from canonical chosen seen
      | false ↦ spelled ∷ chosen_from canonical chosen (skill_key skill ∷ seen)
    ]
  ]

  abbrev pub or_all : List Text → List Text → List Text
  or_all original [] = original
  or_all original (s ∷ out) = s ∷ out

  unfoldable pub tailored_skills : List Text → List Text → List Text
  tailored_skills original chosen =
      or_all original (chosen_from (canonical_from original []) chosen [])

  unfoldable pub hydrate_tailored_resume : ExtractedResume → TailoringResult → TailoredResume
  hydrate_tailored_resume source result =
      let summary = trim_space result.summary in
      record {
        full_name = source.full_name;
        email = source.email;
        phone = source.phone;
        linked_in = source.linked_in;
        git_hub = source.git_hub;
        portfolio = source.portfolio;
        summary = if summary == [] then source.summary else summary;
        skills = tailored_skills source.skills result.skills;
        education = source.education;
        work_experience =
            tailored_roles
              (valid_sections result.work_experience (codes "W")
                (map (λ we. we.bullets) source.work_experience))
              0 source.work_experience;
        projects =
            tailored_projects source.projects
              (valid_sections result.projects (codes "P") (map (λ p. p.bullets) source.projects));
      }
