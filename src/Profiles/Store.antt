-- ===== src/Profiles/Store.antt =====
-- The calls on the sections: what is checked, and the statements that follow. `up` and `up_too` tell
-- how the first and the second statement end.
use jobs_scraper.Prelude.{
  ℕ, Bool, true, false, not, Option, none, some, [], keep, if◌then◌else◌, ◌==◌ as nat_beq,
}
use jobs_scraper.Prelude.Int.{ℤ}
use jobs_scraper.Prelude.Keys.{◌==◌, nat_eq, list_eq}
use jobs_scraper.Prelude.Text.{Text, codes, is_some}
use jobs_scraper.Rows.{
  Row, Rows, Reply, ok, invalid_input, no_rows, broken, is_owned, first_row, delete_row, upsert_row,
  update_row,
}
use jobs_scraper.Profiles.{
  Columns, AddWorkExperienceRequest, Bullet, skill_key, bullet_key, work_key, Valid, valid, invalid,
  AddEducationRequest, education_key, check_education, check_work_experience, Sections,
}

pub record AddBulletRequest : Type 0 where
  pub bullet : Text
  pub position : ℤ

-- How a statement ends: the database runs it and its answer is read; the database does not run it; or
-- it runs and its answer is not read, where `Exec`, `RowsAffected` or `Scan` returns an error.
pub data Run : Type 0 where
  ran refused lost : Run

abbrev pub answers : Run → Bool
answers ran = true
answers refused = false
answers lost = false

module _ (c : Columns) where
  abbrev pub stored :
      {A : Type 0} → Run → (Rows A → Sections c) → Sections c → ℕ × Rows A → Reply ℕ × Sections c
  stored ran put s (id, rows) = (ok id, put rows)
  stored refused put s (id, rows) = (broken, s)
  stored lost put s (id, rows) = (broken, put rows)

  abbrev pub changed :
      {A : Type 0}
      → Run
      → (Rows A → Sections c)
      → Sections c
      → Reply (Unit {0}) × Rows A
      → Reply (Unit {0}) × Sections c
  changed ran put s (reply, rows) = (reply, put rows)
  changed refused put s (reply, rows) = (broken, s)
  changed lost put s (reply, rows) = (broken, put rows)

  abbrev pub checked :
      {A B : Type 0} → Sections c → Valid A → (A → Reply B × Sections c) → Reply B × Sections c
  checked s (invalid message) run = (invalid_input message, s)
  checked s (valid a) run = run a

  unfoldable pub add_education : ℕ → AddEducationRequest c → Run → Sections c → Reply ℕ × Sections c
  add_education profile req up s = checked s (check_education c req) λ e.
      stored up (λ rows. record s { education = rows }) s
        (upsert_row (education_key c) profile e s.education)

  unfoldable pub update_education :
      ℕ → ℕ → AddEducationRequest c → Run → Sections c → Reply (Unit {0}) × Sections c
  update_education profile id req up s = checked s (check_education c req) λ e.
      changed up (λ rows. record s { education = rows }) s
        (update_row (education_key c) profile id e s.education)

  unfoldable pub delete_education : ℕ → ℕ → Run → Sections c → Reply (Unit {0}) × Sections c
  delete_education profile id up s =
      changed up (λ rows. record s { education = rows }) s (delete_row profile id s.education)

  unfoldable pub add_skill : ℕ → Text → Run → Sections c → Reply ℕ × Sections c
  add_skill profile skill up s =
      if skill == []
      then (invalid_input (codes "skill is required"), s)
      else stored up (λ rows. record s { skills = rows }) s
          (upsert_row skill_key profile skill s.skills)

  unfoldable pub delete_skill : ℕ → ℕ → Run → Sections c → Reply (Unit {0}) × Sections c
  delete_skill profile id up s =
      changed up (λ rows. record s { skills = rows }) s (delete_row profile id s.skills)

  unfoldable pub add_work_experience :
      ℕ → AddWorkExperienceRequest → Run → Sections c → Reply ℕ × Sections c
  add_work_experience profile req up s =
      checked s (check_work_experience c req)
        λ w. stored up (λ rows. record s { work = rows }) s (upsert_row work_key profile w s.work)

  unfoldable pub update_work_experience :
      ℕ → ℕ → AddWorkExperienceRequest → Run → Sections c → Reply (Unit {0}) × Sections c
  update_work_experience profile id req up s =
      checked s (check_work_experience c req) λ w.
        changed up (λ rows. record s { work = rows }) s (update_row work_key profile id w s.work)

  -- `SELECT EXISTS`
  abbrev pub owns : ℕ → ℕ → Sections c → Bool
  owns profile id s = is_some (first_row (is_owned profile id) s.work.rows)

  abbrev pub without_bullets : ℕ → Sections c → Sections c
  without_bullets work s = record s {
    bullets = record {
      rows = keep (λ b. not (nat_beq b.owner work)) s.bullets.rows;
      next_id = s.bullets.next_id;
    };
  }

  -- The bullets go first, of an entry that the profile owns.
  abbrev pub cleared : ℕ → ℕ → Sections c → Sections c
  cleared profile id s = if owns profile id s then without_bullets id s else s

  -- The two statements are no transaction.
  unfoldable pub delete_work_experience :
      ℕ → ℕ → Run → Run → Sections c → Reply (Unit {0}) × Sections c
  delete_work_experience profile id refused up_too s = (broken, s)
  delete_work_experience profile id lost up_too s = (broken, cleared profile id s)
  delete_work_experience profile id ran up_too s =
      changed up_too (λ rows. record (cleared profile id s) { work = rows }) (cleared profile id s)
        (delete_row profile id s.work)

  unfoldable pub add_work_experience_bullet :
      ℕ → ℕ → AddBulletRequest → Run → Run → Sections c → Reply ℕ × Sections c
  add_work_experience_bullet profile work req up up_too s =
      if req.bullet == []
      then (invalid_input (codes "bullet is required"), s)
      else if not (answers up)
      then (broken, s)
      else if not (owns profile work s)
      then (no_rows, s)
      else stored up_too (λ rows. record s { bullets = rows }) s
          (upsert_row bullet_key work (record { bullet = req.bullet; position = req.position })
            s.bullets)

  -- `SET bullet = $1` of the row with an id.
  abbrev pub set_bullet :
      ℕ → ℕ → Text → Rows Bullet → Option (Row Bullet) → Reply (Unit {0}) × Rows Bullet
  set_bullet work id bullet rows none = (no_rows, rows)
  set_bullet work id bullet rows (some row) =
      update_row bullet_key work id (record { bullet = bullet; position = row.value.position }) rows

  unfoldable pub update_work_experience_bullet :
      ℕ → ℕ → ℕ → Text → Run → Sections c → Reply (Unit {0}) × Sections c
  update_work_experience_bullet profile work id bullet up s =
      if bullet == []
      then (invalid_input (codes "bullet is required"), s)
      else changed up (λ rows. record s { bullets = rows }) s
          (if owns profile work s
            then set_bullet work id bullet s.bullets (first_row (is_owned work id) s.bullets.rows)
            else (no_rows, s.bullets))

  unfoldable pub delete_work_experience_bullet :
      ℕ → ℕ → ℕ → Run → Sections c → Reply (Unit {0}) × Sections c
  delete_work_experience_bullet profile work id up s =
      changed up (λ rows. record s { bullets = rows }) s
        (if owns profile work s then delete_row work id s.bullets else (no_rows, s.bullets))
