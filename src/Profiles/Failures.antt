-- ===== src/Profiles/Failures.antt =====
-- What a request that is refused or fails leaves behind.
use jobs_scraper.Prelude.{
  ℕ, ◌≡◌, refl, sym, subst, inl, inr, Bool, true, false, not, ◌&&◌, Bool-cases, Option, none, some,
  Option-cases, [], if◌then◌else◌, arith,
}
use jobs_scraper.Prelude.Keys.{Eq, ◌==◌, nat_eq, list_eq}
use jobs_scraper.Prelude.Text.{Text}
use jobs_scraper.Rows.{
  Row, Rows, Reply, ok, invalid_input, no_rows, broken, is_owned, first_row, delete_row, clashes,
  upsert_row, update_row,
}
use jobs_scraper.Profiles.{
  Columns, Bullet, AddWorkExperienceRequest, skill_key, bullet_key, work_key, Valid, valid, invalid,
  AddEducationRequest, education_key, check_education, check_work_experience, Sections,
}
use jobs_scraper.Profiles.Store.{
  Run, ran, refused, AddBulletRequest, stored, changed, checked, owns, cleared, add_education,
  update_education, delete_education, add_skill, delete_skill, add_work_experience,
  update_work_experience, delete_work_experience, add_work_experience_bullet, set_bullet,
  update_work_experience_bullet, delete_work_experience_bullet,
}

abbrev pub is_ok : {B : Type 0} → Reply B → Bool
is_ok (ok b) = true
is_ok (invalid_input message) = false
is_ok no_rows = false
is_ok broken = false

module _ {A : Type 0} where
  -- A statement that does not succeed leaves its table alone.
  abbrev pub LeavesTable : Rows A → Reply (Unit {0}) × Rows A → Type 0
  LeavesTable t r = is_ok r.0 ≡ false → r.1 ≡ t

  delete_row-LeavesTable : (owner id : ℕ) (t : Rows A) → LeavesTable t (delete_row owner id t)
  unfolding delete_row
  delete_row-LeavesTable owner id t = elim (Option-cases (first_row (is_owned owner id) t.rows)) [
    | inl missing ↦ rw (missing, delete_row) (λ bad. refl)
    | inr (row, found) ↦ rw (found, delete_row) (λ bad. absurd (ground arith))
  ]

  update_row-LeavesTable :
      {K : Type 0} ⦃e : Eq K⦄ (key : A → Option K) (owner id : ℕ) (a : A) (t : Rows A)
      → LeavesTable t (update_row key owner id a t)
  unfolding update_row
  update_row-LeavesTable key owner id a t =
      elim (Option-cases (first_row (is_owned owner id) t.rows)) [
        | inl missing ↦ rw (missing, update_row) (λ bad. refl)
        | inr (row, found) ↦
            elim (Option-cases
              (first_row (λ r. not (is_owned owner id r) && clashes key owner a r) t.rows)) [
                | inr (taken, clash) ↦ rw (found, clash, update_row) (λ bad. refl)
                | inl free ↦ rw (found, free, update_row) (λ bad. absurd (ground arith))
              ]
      ]

-- A statement that is run and answered, or else is not run.
abbrev pub run_of : Bool → Run
run_of true = ran
run_of false = refused

module _ (c : Columns) (profile : ℕ) (s : Sections c) where
  -- A call that does not succeed leaves the sections alone.
  abbrev pub Leaves : {B : Type 0} → Reply B × Sections c → Type 0
  Leaves r = is_ok r.0 ≡ false → r.1 ≡ s

  checked-Leaves :
      {A B : Type 0} (v : Valid A) (run : A → Reply B × Sections c)
      → ((a : A) → Leaves (run a))
      → Leaves (checked c s v run)
  checked-Leaves (valid a) run h = h a
  checked-Leaves (invalid message) run h = λ bad. refl

  stored-Leaves :
      {A : Type 0} (up : Bool) (put : Rows A → Sections c) (r : ℕ × Rows A)
      → Leaves (stored c (run_of up) put s r)
  stored-Leaves true put r = λ bad. absurd (ground arith)
  stored-Leaves false put r = λ bad. refl

  changed-Leaves :
      {A : Type 0} (up : Bool) (put : Rows A → Sections c) (t : Rows A)
      (r : Reply (Unit {0}) × Rows A)
      → put t ≡ s
      → LeavesTable t r
      → Leaves (changed c (run_of up) put s r)
  changed-Leaves true put t r back h = λ bad. subst (λ u. put u ≡ s) (sym (h bad)) back
  changed-Leaves false put t r back h = λ bad. refl

  pub add_education-Leaves :
      (req : AddEducationRequest c) (up : Bool) → Leaves (add_education c profile req (run_of up) s)
  unfolding add_education
  add_education-Leaves req up = checked-Leaves (check_education c req) _ (λ e.
      stored-Leaves up (λ rows. record s { education = rows })
        (upsert_row (education_key c) profile e s.education))

  pub update_education-Leaves :
      (id : ℕ) (req : AddEducationRequest c) (up : Bool)
      → Leaves (update_education c profile id req (run_of up) s)
  unfolding update_education
  update_education-Leaves id req up = checked-Leaves (check_education c req) _ (λ e.
      changed-Leaves up (λ rows. record s { education = rows }) s.education
        (update_row (education_key c) profile id e s.education) refl
        (update_row-LeavesTable (education_key c) profile id e s.education))

  pub delete_education-Leaves :
      (id : ℕ) (up : Bool) → Leaves (delete_education c profile id (run_of up) s)
  unfolding delete_education
  delete_education-Leaves id up =
      changed-Leaves up (λ rows. record s { education = rows }) s.education
        (delete_row profile id s.education) refl (delete_row-LeavesTable profile id s.education)

  pub add_skill-Leaves :
      (skill : Text) (up : Bool) → Leaves (add_skill c profile skill (run_of up) s)
  unfolding add_skill
  add_skill-Leaves skill up = elim (Bool-cases (skill == [])) [
    | inl empty ↦ rw (empty, add_skill) (λ bad. refl)
    | inr given ↦
        rw (given, add_skill)
          (stored-Leaves up (λ rows. record s { skills = rows })
            (upsert_row skill_key profile skill s.skills))
  ]

  pub delete_skill-Leaves : (id : ℕ) (up : Bool) → Leaves (delete_skill c profile id (run_of up) s)
  unfolding delete_skill
  delete_skill-Leaves id up =
      changed-Leaves up (λ rows. record s { skills = rows }) s.skills
        (delete_row profile id s.skills) refl (delete_row-LeavesTable profile id s.skills)

  pub add_work_experience-Leaves :
      (req : AddWorkExperienceRequest) (up : Bool)
      → Leaves (add_work_experience c profile req (run_of up) s)
  unfolding add_work_experience
  add_work_experience-Leaves req up = checked-Leaves (check_work_experience c req) _ (λ w.
      stored-Leaves up (λ rows. record s { work = rows }) (upsert_row work_key profile w s.work))

  pub update_work_experience-Leaves :
      (id : ℕ) (req : AddWorkExperienceRequest) (up : Bool)
      → Leaves (update_work_experience c profile id req (run_of up) s)
  unfolding update_work_experience
  update_work_experience-Leaves id req up = checked-Leaves (check_work_experience c req) _ (λ w.
      changed-Leaves up (λ rows. record s { work = rows }) s.work
        (update_row work_key profile id w s.work) refl
        (update_row-LeavesTable work_key profile id w s.work))

  -- Where both statements run, or the first does not.
  pub delete_work_experience-Leaves :
      (id : ℕ) (up : Bool) → Leaves (delete_work_experience c profile id (run_of up) ran s)
  unfolding delete_work_experience delete_row
  delete_work_experience-Leaves id false = λ bad. refl
  delete_work_experience-Leaves id true =
      elim (Option-cases (first_row (is_owned profile id) s.work.rows)) [
        | inl missing ↦ rw (missing, delete_work_experience, delete_row) (λ bad. refl)
        | inr (row, found) ↦
            rw (found, delete_work_experience, delete_row) (λ bad. absurd (ground arith))
      ]

  -- Where the second statement is not run, the bullets of an entry that the profile owns are gone.
  pub delete_work_experience-half :
      (id : ℕ)
      → delete_work_experience c profile id ran refused s ≡ (broken, cleared c profile id s)
  unfolding delete_work_experience
  delete_work_experience-half id = refl

  abbrev put_bullets : Rows Bullet → Sections c
  put_bullets rows = record s { bullets = rows }

  pub add_work_experience_bullet-Leaves :
      (work : ℕ) (req : AddBulletRequest) (up up_too : Bool)
      → Leaves (add_work_experience_bullet c profile work req (run_of up) (run_of up_too) s)
  unfolding add_work_experience_bullet
  add_work_experience_bullet-Leaves work req false up_too = elim (Bool-cases (req.bullet == [])) [
    | inl empty ↦ rw (empty, add_work_experience_bullet) (λ bad. refl)
    | inr given ↦ rw (given, add_work_experience_bullet) (λ bad. refl)
  ]
  add_work_experience_bullet-Leaves work req true up_too = elim (Bool-cases (req.bullet == [])) [
    | inl empty ↦ rw (empty, add_work_experience_bullet) (λ bad. refl)
    | inr given ↦ elim (Bool-cases (owns c profile work s)) [
      | inr strange ↦ rw (given, strange, add_work_experience_bullet) (λ bad. refl)
      | inl own ↦
          rw (given, own, add_work_experience_bullet)
            (stored-Leaves up_too put_bullets (
              upsert_row bullet_key work (record { bullet = req.bullet; position = req.position })
                s.bullets))
    ]
  ]

  set_bullet-LeavesTable :
      (work id : ℕ) (bullet : Text) (o : Option (Row Bullet))
      → LeavesTable s.bullets (set_bullet c work id bullet s.bullets o)
  set_bullet-LeavesTable work id bullet none = λ bad. refl
  set_bullet-LeavesTable work id bullet (some row) =
      update_row-LeavesTable bullet_key work id
        (record { bullet = bullet; position = row.value.position }) s.bullets

  if_owned :
      (own up : Bool) (r : Reply (Unit {0}) × Rows Bullet)
      → LeavesTable s.bullets r
      → Leaves (changed c (run_of up) put_bullets s (if own then r else (no_rows, s.bullets)))
  if_owned true up r h = changed-Leaves up put_bullets s.bullets r refl h
  if_owned false up r h =
      changed-Leaves up put_bullets s.bullets (no_rows, s.bullets) refl (λ bad. refl)

  pub update_work_experience_bullet-Leaves :
      (work id : ℕ) (bullet : Text) (up : Bool)
      → Leaves (update_work_experience_bullet c profile work id bullet (run_of up) s)
  unfolding update_work_experience_bullet
  update_work_experience_bullet-Leaves work id bullet up = elim (Bool-cases (bullet == [])) [
    | inl empty ↦ rw (empty, update_work_experience_bullet) (λ bad. refl)
    | inr given ↦
        rw (given, update_work_experience_bullet)
          (if_owned (owns c profile work s) up _
            (set_bullet-LeavesTable work id bullet (first_row (is_owned work id) s.bullets.rows)))
  ]

  pub delete_work_experience_bullet-Leaves :
      (work id : ℕ) (up : Bool)
      → Leaves (delete_work_experience_bullet c profile work id (run_of up) s)
  unfolding delete_work_experience_bullet
  delete_work_experience_bullet-Leaves work id up =
      if_owned (owns c profile work s) up (delete_row work id s.bullets)
        (delete_row-LeavesTable work id s.bullets)
