-- ===== src/Tailoring/Projects.antt =====
-- The projects of a tailored resume: each is one of the candidate's, and none stands twice.
use jobs_scraper.Prelude.{
  ℕ, zero, suc, ◌<◌, ◌≡◌, refl, inl, inr, subst, false, some, Option-cases, List, [], ◌∷◌, map,
  length, length-map, get_elem?, All, arith,
}
use jobs_scraper.Prelude.Keys.{nat_eq, member, Distinct, new-tail, not_member-new}
use jobs_scraper.Prelude.Text.{Text, Unicode, codes}
use jobs_scraper.Tailoring.{
  ProjectEntry, ExtractedResume, TailoredProject, TailoredSection, TailoringResult, SectionBullets,
  parse_source_id, fresh_section, bullets_at, sections_from, valid_sections, tailored_projects,
  hydrate_tailored_resume,
}
use jobs_scraper.Tailoring.Grounded.{
  IsReworded, AreGrounded, IsOwn, all_sections-IsOwn, or_original-AreGrounded,
  or_original-not_emptied, fresh_section-new,
}

abbrev indexes : List SectionBullets → List ℕ
indexes = map (λ s. s.index)

sections_from-new :
    (prefix : Text) (originals : List (List Text)) (sections : List TailoredSection) (seen : List ℕ)
    → All (λ i. member i seen ≡ false) (indexes (sections_from prefix originals sections seen))
unfolding sections_from
sections_from-new prefix originals [] seen = tt
sections_from-new prefix originals (s ∷ sections) seen =
    elim (Option-cases (fresh_section (length originals) seen (parse_source_id s.source prefix))) [
      | inl e ↦ rw (e, sections_from) (sections_from-new prefix originals sections seen)
      | inr (i, e) ↦
          rw (e, sections_from)
            (
              (fresh_section-new (length originals) seen (parse_source_id s.source prefix) e).1,
              new-tail i (indexes (sections_from prefix originals sections (i ∷ seen))) seen
                  (sections_from-new prefix originals sections (i ∷ seen)),
            )
    ]

sections_from-Distinct :
    (prefix : Text) (originals : List (List Text)) (sections : List TailoredSection) (seen : List ℕ)
    → Distinct (indexes (sections_from prefix originals sections seen))
unfolding sections_from
sections_from-Distinct prefix originals [] seen = tt
sections_from-Distinct prefix originals (s ∷ sections) seen =
    elim (Option-cases (fresh_section (length originals) seen (parse_source_id s.source prefix))) [
      | inl e ↦ rw (e, sections_from) (sections_from-Distinct prefix originals sections seen)
      | inr (i, e) ↦
          rw (e, sections_from)
            (
              not_member-new i (indexes (sections_from prefix originals sections (i ∷ seen))) seen
                  (sections_from-new prefix originals sections (i ∷ seen)),
              sections_from-Distinct prefix originals sections (i ∷ seen),
            )
    ]

-- The tailored form of the candidate's project number `i`.
pub record IsProject (answer : List TailoredSection) (projects : List ProjectEntry) (i : ℕ)
    (t : TailoredProject) : Type 0 where
  pub original : ProjectEntry
  pub stands_at : get_elem? projects i ≡ some original
  pub same_name : t.name ≡ original.name
  pub same_url : t.url ≡ original.url
  pub same_technologies : t.technologies ≡ original.technologies
  pub own_bullets : AreGrounded (codes "P") answer i original.bullets t.bullets
  pub not_emptied : length t.bullets ≡ 0 → length original.bullets ≡ 0

abbrev pub AreProjects :
    List TailoredSection → List ProjectEntry → List ℕ → List TailoredProject → Type 0
AreProjects answer projects [] [] = Unit
AreProjects answer projects [] (t ∷ ts) = ⊥
AreProjects answer projects (i ∷ is) [] = ⊥
AreProjects answer projects (i ∷ is) (t ∷ ts) =
    IsProject answer projects i t × AreProjects answer projects is ts

abbrev project_bullets : List ProjectEntry → List (List Text)
project_bullets = map (λ p. p.bullets)

in_range :
    (projects : List ProjectEntry) (i : ℕ)
    → i < length projects
    → (p : ProjectEntry) × (get_elem? projects i ≡ some p)
      × (bullets_at (project_bullets projects) i ≡ p.bullets)
in_range [] i h = absurd (omega arith)
in_range (p ∷ projects) zero h = (p, refl, refl)
in_range (p ∷ projects) (suc i) h = in_range projects i (omega arith)

tailored_projects-AreProjects :
    (answer : List TailoredSection) (projects : List ProjectEntry) (sections : List SectionBullets)
    → All (IsOwn (codes "P") answer (project_bullets projects)) sections
    → AreProjects answer projects (indexes sections) (tailored_projects projects sections)
unfolding tailored_projects
tailored_projects-AreProjects answer projects [] h = tt
tailored_projects-AreProjects answer projects (s ∷ sections) h =
    let range : s.index < length projects =
      subst (λ n. s.index < n) (length-map (λ (p : ProjectEntry). p.bullets) projects) h.0.0 in
    let (p, found, same) = in_range projects s.index range in
    rw (found, tailored_projects)
      (
        record {
          original = p;
          stands_at = found;
          same_name = refl;
          same_url = refl;
          same_technologies = refl;
          own_bullets = or_original-AreGrounded (codes "P") answer s.index p.bullets s.bullets (
              subst (λ bs. All (IsReworded (codes "P") answer s.index (length bs)) s.bullets) same
                h.0.1);
          not_emptied = or_original-not_emptied (codes "P") s.index p.bullets s.bullets;
        },
        tailored_projects-AreProjects answer projects sections h.1,
      )

-- The projects of a tailored resume are some of the candidate's, none of them twice, each with its
-- name, link and technologies unchanged. The bullets of a project are all of its own in their order
-- and each under its own id; or each of them has the trimmed, non-empty wording of a bullet of the
-- answer, in a section whose id names that project, where the bullet's own id names that project
-- and one of its bullets, whose id it carries. A project that has bullets keeps at least one.
pub hydrate_tailored_resume-projects :
    (u : Unicode) (source : ExtractedResume) (result : TailoringResult)
    → (is : List ℕ) × Distinct is
      × AreProjects result.projects source.projects is
          (hydrate_tailored_resume u source result).projects
unfolding hydrate_tailored_resume valid_sections
hydrate_tailored_resume-projects u source result =
    let originals = project_bullets source.projects in
    (
      indexes (sections_from (codes "P") originals result.projects []),
      sections_from-Distinct (codes "P") originals result.projects [],
      tailored_projects-AreProjects result.projects source.projects _
          (all_sections-IsOwn (codes "P") originals result.projects),
    )
