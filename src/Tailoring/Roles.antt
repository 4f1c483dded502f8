-- ===== src/Tailoring/Roles.antt =====
-- The roles of a tailored resume: none is lost or changed, and each bullet is one of its own.
use jobs_scraper.Prelude.{
  ℕ, suc, ◌+◌, ◌≡◌, refl, inl, inr, subst, Bool-cases, List, [], ◌∷◌, map, length, All, ◌==◌, arith,
}
use jobs_scraper.Prelude.Keys.{nat_eq}
use jobs_scraper.Prelude.Text.{Text, Unicode, codes}
use jobs_scraper.Tailoring.Grounded.{
  IsReworded, AreGrounded, IsOwn, or_original-AreGrounded, or_original-not_emptied,
  all_sections-IsOwn,
}
use jobs_scraper.Tailoring.{
  WorkExperienceEntry, ExtractedResume, TailoredWorkExperience, TailoredSection, TailoringResult,
  SectionBullets, bullets_at, valid_sections, by_role, tailored_roles, hydrate_tailored_resume,
}

by_role-IsReworded :
    (prefix : Text) (answer : List TailoredSection) (originals : List (List Text)) (i : ℕ)
    (sections : List SectionBullets)
    → All (IsOwn prefix answer originals) sections
    → All (IsReworded prefix answer i (length (bullets_at originals i))) (by_role i sections)
by_role-IsReworded prefix answer originals i [] h = tt
by_role-IsReworded prefix answer originals i (s ∷ sections) h = elim (Bool-cases (s.index == i)) [
  | inl e ↦
      let same : s.index ≡ i = ground arith in
      rw e (
        subst (λ k. All (IsReworded prefix answer k (length (bullets_at originals k))) s.bullets)
          same h.0.1)
  | inr e ↦ rw e (by_role-IsReworded prefix answer originals i sections h.1)
]

-- A role and its tailored form: the same facts, bullets of its own, and some if it had any.
pub record IsSameRole (answer : List TailoredSection) (i : ℕ) (we : WorkExperienceEntry)
    (t : TailoredWorkExperience) : Type 0 where
  pub same_company : t.company ≡ we.company
  pub same_title : t.job_title ≡ we.job_title
  pub same_location : t.location ≡ we.location
  pub same_start : t.start_date ≡ we.start_date
  pub same_end : t.end_date ≡ we.end_date
  pub own_bullets : AreGrounded (codes "W") answer i we.bullets t.bullets
  pub not_emptied : length t.bullets ≡ 0 → length we.bullets ≡ 0

-- Role by role, from the number `i` on.
abbrev pub AreSameRoles :
    List TailoredSection → ℕ → List WorkExperienceEntry → List TailoredWorkExperience → Type 0
AreSameRoles answer i [] [] = Unit
AreSameRoles answer i [] (t ∷ ts) = ⊥
AreSameRoles answer i (we ∷ roles) [] = ⊥
AreSameRoles answer i (we ∷ roles) (t ∷ ts) =
    IsSameRole answer i we t × AreSameRoles answer (suc i) roles ts

abbrev role_bullets : List WorkExperienceEntry → List (List Text)
role_bullets = map (λ we. we.bullets)

tailored_roles-same :
    (answer : List TailoredSection) (originals : List (List Text)) (sections : List SectionBullets)
    (i : ℕ) (roles : List WorkExperienceEntry)
    → All (IsOwn (codes "W") answer originals) sections
    → ((k m : ℕ) → m ≡ i + k → bullets_at originals m ≡ bullets_at (role_bullets roles) k)
    → AreSameRoles answer i roles (tailored_roles sections i roles)
unfolding tailored_roles
tailored_roles-same answer originals sections i [] h at' = tt
tailored_roles-same answer originals sections i (we ∷ roles) h at' = (
  record {
    same_company = refl;
    same_title = refl;
    same_location = refl;
    same_start = refl;
    same_end = refl;
    own_bullets = or_original-AreGrounded (codes "W") answer i we.bullets (by_role i sections) (
        subst (λ bs. All (IsReworded (codes "W") answer i (length bs)) (by_role i sections))
          (at' 0 i (omega arith)) (by_role-IsReworded (codes "W") answer originals i sections h));
    not_emptied = or_original-not_emptied (codes "W") i we.bullets (by_role i sections);
  },
  tailored_roles-same answer originals sections (suc i) roles h
      (λ k m e. at' (suc k) m (omega arith)),
)

-- A tailored resume has the candidate's roles, all of them in their order, each with its company,
-- title, location and dates unchanged, whatever the model answered. The bullets of a role are all of
-- its own in their order and each under its own id; or each of them has the trimmed, non-empty wording
-- of a bullet of the answer, in a section whose id names that role, where the bullet's own id
-- names that role and one of its bullets, whose id it carries. A role that has bullets keeps at
-- least one.
pub hydrate_tailored_resume-roles :
    (u : Unicode) (source : ExtractedResume) (result : TailoringResult)
    → AreSameRoles result.work_experience 0 source.work_experience
        (hydrate_tailored_resume u source result).work_experience
unfolding hydrate_tailored_resume valid_sections
hydrate_tailored_resume-roles u source result =
    let originals = role_bullets source.work_experience in
    tailored_roles-same result.work_experience originals _ 0 source.work_experience
      (all_sections-IsOwn (codes "W") originals result.work_experience)
      (λ k m e. let same : m ≡ k = omega arith in rw same refl)
