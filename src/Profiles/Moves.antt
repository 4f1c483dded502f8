-- ===== src/Profiles/Moves.antt =====
-- What a request may do to the sections: on each table one statement for the profile, and on the
-- bullets one for an entry that the profile owns.
use jobs_scraper.Prelude.{
  ℕ, ◌≡◌, inl, inr, true, Bool-cases, not, Option, none, some, [], if◌then◌else◌,
}
use jobs_scraper.Prelude.Keys.{Eq, ◌==◌, nat_eq, list_eq}
use jobs_scraper.Prelude.Text.{Text}
use jobs_scraper.Rows.{Row, Rows, Reply, no_rows, broken, delete_row, upsert_row, update_row}
use jobs_scraper.Profiles.{
  Columns, AddWorkExperienceRequest, WorkExperience, Education, Bullet, skill_key, bullet_key,
  work_key, Valid, valid, invalid, AddEducationRequest, education_key, check_education,
  check_work_experience, Sections,
}
use jobs_scraper.Profiles.Store.{
  Run, ran, refused, lost, answers, AddBulletRequest, stored, changed, checked, owns, cleared,
  add_education, update_education, delete_education, add_skill, delete_skill, add_work_experience,
  update_work_experience, delete_work_experience, add_work_experience_bullet, set_bullet,
  update_work_experience_bullet, delete_work_experience_bullet,
}

-- A table after at most one statement for an owner.
pub data Touched {A K : Type 0} ⦃e : Eq K⦄ (key : A → Option K) (owner : ℕ) (t : Rows A)
    : Rows A → Type 0 where
  kept : Touched key owner t t
  upserted : (a : A) → Touched key owner t (upsert_row key owner a t).1
  set : (id : ℕ) (a : A) → Touched key owner t (update_row key owner id a t).1
  dropped : (id : ℕ) → Touched key owner t (delete_row owner id t).1

pub data IsMove (c : Columns) (profile : ℕ) (s : Sections c) : Sections c → Type 0 where
  still : IsMove c profile s s
  on_education :
      (rows : Rows (Education c))
      → Touched (education_key c) profile s.education rows
      → IsMove c profile s (record s { education = rows })
  on_skills :
      (rows : Rows Text)
      → Touched skill_key profile s.skills rows
      → IsMove c profile s (record s { skills = rows })
  on_work :
      (rows : Rows WorkExperience)
      → Touched work_key profile s.work rows
      → IsMove c profile s (record s { work = rows })
  on_bullets :
      (work : ℕ) (rows : Rows Bullet)
      → owns c profile work s ≡ true
      → Touched bullet_key work s.bullets rows
      → IsMove c profile s (record s { bullets = rows })
  on_cleared : (id : ℕ) → IsMove c profile s (cleared c profile id s)
  on_dropped :
      (id : ℕ)
      → IsMove c profile s
          (record (cleared c profile id s) { work = (delete_row profile id s.work).1 })

module _ (c : Columns) (profile : ℕ) (s : Sections c) where
  checked-IsMove :
      {A B : Type 0} (v : Valid A) (run : A → Reply B × Sections c)
      → ((a : A) → IsMove c profile s (run a).1)
      → IsMove c profile s (checked c s v run).1
  checked-IsMove (valid a) run h = h a
  checked-IsMove (invalid message) run h = still

  set_bullet-Touched :
      (work id : ℕ) (bullet : Text) (rows : Rows Bullet) (o : Option (Row Bullet))
      → Touched bullet_key work rows (set_bullet c work id bullet rows o).1
  set_bullet-Touched work id bullet rows none = kept
  set_bullet-Touched work id bullet rows (some row) = set id _

  unchanged :
      (up : Run) (reply : Reply (Unit {0}))
      → IsMove c profile s
          (changed c up (λ rows. record s { bullets = rows }) s (reply, s.bullets)).1
  unchanged ran reply = still
  unchanged refused reply = still
  unchanged lost reply = still

  changed-bullets :
      (up : Run) (work : ℕ) (r : Reply (Unit {0}) × Rows Bullet)
      → owns c profile work s ≡ true
      → Touched bullet_key work s.bullets r.1
      → IsMove c profile s (changed c up (λ rows. record s { bullets = rows }) s r).1
  changed-bullets ran work r own h = on_bullets work r.1 own h
  changed-bullets lost work r own h = on_bullets work r.1 own h
  changed-bullets refused work r own h = still

  pub add_education-IsMove :
      (req : AddEducationRequest c) (up : Run)
      → IsMove c profile s (add_education c profile req up s).1
  unfolding add_education
  add_education-IsMove req ran =
      checked-IsMove (check_education c req) _ (λ e. on_education _ (upserted e))
  add_education-IsMove req lost =
      checked-IsMove (check_education c req) _ (λ e. on_education _ (upserted e))
  add_education-IsMove req refused = checked-IsMove (check_education c req) _ (λ e. still)

  pub update_education-IsMove :
      (id : ℕ) (req : AddEducationRequest c) (up : Run)
      → IsMove c profile s (update_education c profile id req up s).1
  unfolding update_education
  update_education-IsMove id req ran =
      checked-IsMove (check_education c req) _ (λ e. on_education _ (set id e))
  update_education-IsMove id req lost =
      checked-IsMove (check_education c req) _ (λ e. on_education _ (set id e))
  update_education-IsMove id req refused = checked-IsMove (check_education c req) _ (λ e. still)

  pub delete_education-IsMove :
      (id : ℕ) (up : Run) → IsMove c profile s (delete_education c profile id up s).1
  unfolding delete_education
  delete_education-IsMove id ran = on_education _ (dropped id)
  delete_education-IsMove id lost = on_education _ (dropped id)
  delete_education-IsMove id refused = still

  pub add_skill-IsMove :
      (skill : Text) (up : Run) → IsMove c profile s (add_skill c profile skill up s).1
  unfolding add_skill
  add_skill-IsMove skill refused = elim (Bool-cases (skill == [])) [
    | inl empty ↦ rw (empty, add_skill) still
    | inr given ↦ rw (given, add_skill) still
  ]
  add_skill-IsMove skill ran = elim (Bool-cases (skill == [])) [
    | inl empty ↦ rw (empty, add_skill) still
    | inr given ↦ rw (given, add_skill) (on_skills _ (upserted skill))
  ]
  add_skill-IsMove skill lost = elim (Bool-cases (skill == [])) [
    | inl empty ↦ rw (empty, add_skill) still
    | inr given ↦ rw (given, add_skill) (on_skills _ (upserted skill))
  ]

  pub delete_skill-IsMove :
      (id : ℕ) (up : Run) → IsMove c profile s (delete_skill c profile id up s).1
  unfolding delete_skill
  delete_skill-IsMove id ran = on_skills _ (dropped id)
  delete_skill-IsMove id lost = on_skills _ (dropped id)
  delete_skill-IsMove id refused = still

  pub add_work_experience-IsMove :
      (req : AddWorkExperienceRequest) (up : Run)
      → IsMove c profile s (add_work_experience c profile req up s).1
  unfolding add_work_experience
  add_work_experience-IsMove req ran =
      checked-IsMove (check_work_experience c req) _ (λ w. on_work _ (upserted w))
  add_work_experience-IsMove req lost =
      checked-IsMove (check_work_experience c req) _ (λ w. on_work _ (upserted w))
  add_work_experience-IsMove req refused =
      checked-IsMove (check_work_experience c req) _ (λ w. still)

  pub update_work_experience-IsMove :
      (id : ℕ) (req : AddWorkExperienceRequest) (up : Run)
      → IsMove c profile s (update_work_experience c profile id req up s).1
  unfolding update_work_experience
  update_work_experience-IsMove id req ran =
      checked-IsMove (check_work_experience c req) _ (λ w. on_work _ (set id w))
  update_work_experience-IsMove id req lost =
      checked-IsMove (check_work_experience c req) _ (λ w. on_work _ (set id w))
  update_work_experience-IsMove id req refused =
      checked-IsMove (check_work_experience c req) _ (λ w. still)

  pub delete_work_experience-IsMove :
      (id : ℕ) (up up_too : Run)
      → IsMove c profile s (delete_work_experience c profile id up up_too s).1
  unfolding delete_work_experience
  delete_work_experience-IsMove id refused up_too = still
  delete_work_experience-IsMove id lost up_too = on_cleared id
  delete_work_experience-IsMove id ran ran = on_dropped id
  delete_work_experience-IsMove id ran lost = on_dropped id
  delete_work_experience-IsMove id ran refused = on_cleared id

  pub add_work_experience_bullet-IsMove :
      (work : ℕ) (req : AddBulletRequest) (up up_too : Run)
      → IsMove c profile s (add_work_experience_bullet c profile work req up up_too s).1
  unfolding add_work_experience_bullet
  add_work_experience_bullet-IsMove work req up up_too = elim (Bool-cases (req.bullet == [])) [
    | inl empty ↦ rw (empty, add_work_experience_bullet) still
    | inr given ↦ rw (given, add_work_experience_bullet) (with_text up up_too)
  ]
    where
      with_text :
          (up up_too : Run)
          → IsMove c profile s
              (if not (answers up)
                then (broken, s)
                else if not (owns c profile work s)
                then (no_rows, s)
                else stored c up_too
                    (λ rows. record s { bullets = rows })
                    s
                    (upsert_row bullet_key work
                      (record { bullet = req.bullet; position = req.position })
                      s.bullets)).1
      with_text refused up_too = still
      with_text lost up_too = still
      with_text ran up_too = elim (Bool-cases (owns c profile work s)) [
        | inr strange ↦ rw strange still
        | inl own ↦
            rw own
              (elim up_too
                as (λ b.
                  IsMove c profile s
                    (stored c b (λ rows. record s { bullets = rows }) s
                      (upsert_row bullet_key work
                        (record { bullet = req.bullet; position = req.position }) s.bullets)).1) [
                          | ran ↦ on_bullets work _ own (upserted _)
                          | lost ↦ on_bullets work _ own (upserted _)
                          | refused ↦ still
                        ])
      ]

  pub update_work_experience_bullet-IsMove :
      (work id : ℕ) (bullet : Text) (up : Run)
      → IsMove c profile s (update_work_experience_bullet c profile work id bullet up s).1
  unfolding update_work_experience_bullet
  update_work_experience_bullet-IsMove work id bullet up = elim (Bool-cases (bullet == [])) [
    | inl empty ↦ rw (empty, update_work_experience_bullet) still
    | inr given ↦ elim (Bool-cases (owns c profile work s)) [
      | inr strange ↦ rw (given, strange, update_work_experience_bullet) (unchanged up no_rows)
      | inl own ↦
          rw (given, own, update_work_experience_bullet)
            (changed-bullets up work _ own (set_bullet-Touched work id bullet s.bullets _))
    ]
  ]

  pub delete_work_experience_bullet-IsMove :
      (work id : ℕ) (up : Run)
      → IsMove c profile s (delete_work_experience_bullet c profile work id up s).1
  unfolding delete_work_experience_bullet
  delete_work_experience_bullet-IsMove work id up = elim (Bool-cases (owns c profile work s)) [
    | inr strange ↦ rw (strange, delete_work_experience_bullet) (unchanged up no_rows)
    | inl own ↦ rw (own, delete_work_experience_bullet) (changed-bullets up work _ own (dropped id))
  ]
