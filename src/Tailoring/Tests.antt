-- ===== src/Tailoring/Tests.antt =====
-- Tailoring at a small resume.
use jobs_scraper.Prelude.{ℕ, ◌≡◌, ◌⊎◌, refl, some, List, [], ◌∷◌, map, keep, arith}
use jobs_scraper.Prelude.Int.{pos, negsuc}
use jobs_scraper.Prelude.Keys.{nat_eq, list_eq, Within, Distinct}
use jobs_scraper.Prelude.Text.{Text, codes, ascii_only, itoa, atoi}
use jobs_scraper.Tailoring.{
  WorkExperienceEntry, ProjectEntry, ExtractedResume, TailoredBullet, TailoringResult, bullet_id,
  parse_source_id, tailored_skills, hydrate_tailored_resume, valid_sections, sections_from,
  kept_bullets, tailored_roles, original_bullets, canonical_from, chosen_from,
}
use jobs_scraper.Tailoring.Ids.{parse_source_id-bullet_id}
use jobs_scraper.Tailoring.Roles.{AreSameRoles, hydrate_tailored_resume-roles}
use jobs_scraper.Tailoring.Projects.{AreProjects, hydrate_tailored_resume-projects}
use jobs_scraper.Tailoring.Skills.{keys, is_own, tailored_skills-own}

reads_bracketed : parse_source_id (codes " [W2.B10] ") (codes "W") ≡ some (2, pos 10)
unfolding parse_source_id atoi
reads_bracketed = refl

reads_section : parse_source_id (codes "P0") (codes "P") ≡ some (0, negsuc 0)
unfolding parse_source_id atoi
reads_section = refl

parse_source_id-bullet_id_example :
    parse_source_id (bullet_id (codes "W") 3 12) (codes "W") ≡ some (3, pos 12)
parse_source_id-bullet_id_example =
    parse_source_id-bullet_id b'W' 3 12 (omega arith) (omega arith) (omega arith) (omega arith)

abbrev role : WorkExperienceEntry
role = record {
  company = codes "Acme";
  job_title = codes "Clerk";
  location = [];
  start_date = codes "2020-01-01";
  end_date = [];
  bullets = codes "filed" ∷ codes "typed" ∷ [];
}

abbrev project : ProjectEntry
project = record {
  name = codes "Abacus";
  url = [];
  technologies = codes "Go" ∷ [];
  bullets = codes "counts" ∷ [];
}

abbrev resume : ExtractedResume
resume = record {
  full_name = codes "A";
  email = [];
  phone = [];
  linked_in = [];
  git_hub = [];
  portfolio = [];
  summary = codes "own";
  skills = codes "Go" ∷ codes "SQL" ∷ [];
  education = [];
  work_experience = role ∷ role ∷ [];
  projects = project ∷ [];
}

abbrev bullet : Text → Text → TailoredBullet
bullet text source = record { text = text; source = source }

abbrev answer : TailoringResult
answer = record {
  summary = codes " ";
  skills = codes "sql" ∷ codes "Rust" ∷ codes "SQL" ∷ [];
  work_experience =
      record {
        source = codes "W0";
        bullets =
            bullet (codes "Typed fast") (codes "[W0.B1]")
            ∷ bullet (codes "Invented") (codes "W0.B9")
            ∷ [];
      }
      ∷ record { source = codes "W7"; bullets = [] }
      ∷ [];
  projects =
      record { source = codes "P0"; bullets = [] }
      ∷ record { source = codes "P0"; bullets = [] }
      ∷ [];
}

only_grounded_bullets :
    map (λ t. t.bullets) (hydrate_tailored_resume ascii_only resume answer).work_experience
    ≡ (bullet (codes "Typed fast") (codes "W0.B1") ∷ [])
      ∷ (bullet (codes "filed") (codes "W1.B0") ∷ bullet (codes "typed") (codes "W1.B1") ∷ [])
      ∷ []
unfolding hydrate_tailored_resume valid_sections sections_from kept_bullets tailored_roles
    original_bullets bullet_id parse_source_id itoa atoi
only_grounded_bullets = refl

own_skills : tailored_skills ascii_only resume.skills answer.skills ≡ codes "SQL" ∷ []
unfolding tailored_skills canonical_from chosen_from
own_skills = refl

hydrate_tailored_resume-roles_example :
    AreSameRoles answer.work_experience 0 resume.work_experience
      (hydrate_tailored_resume ascii_only resume answer).work_experience
hydrate_tailored_resume-roles_example = hydrate_tailored_resume-roles ascii_only resume answer

hydrate_tailored_resume-projects_example :
    (is : List ℕ) × Distinct is
    × AreProjects answer.projects resume.projects is
        (hydrate_tailored_resume ascii_only resume answer).projects
hydrate_tailored_resume-projects_example = hydrate_tailored_resume-projects ascii_only resume answer

tailored_skills-own_example :
    Within (tailored_skills ascii_only resume.skills answer.skills) resume.skills
    × (((keep (is_own ascii_only resume.skills) answer.skills ≡ [])
          × (tailored_skills ascii_only resume.skills answer.skills ≡ resume.skills))
        ⊎ (Distinct (keys ascii_only (tailored_skills ascii_only resume.skills answer.skills))
            × Within
                (keys ascii_only (tailored_skills ascii_only resume.skills answer.skills))
                (keys ascii_only (keep (is_own ascii_only resume.skills) answer.skills))
            × Within
                (keys ascii_only (keep (is_own ascii_only resume.skills) answer.skills))
                (keys ascii_only (tailored_skills ascii_only resume.skills answer.skills))))
tailored_skills-own_example = tailored_skills-own ascii_only resume.skills answer.skills
