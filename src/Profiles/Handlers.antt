-- ===== src/Profiles/Handlers.antt =====
-- The handlers of the sections (backend/server/profiles.go), behind the middleware that finds the
-- profile. An id is the text of the path, a body `none` where it cannot be decoded.
use jobs_scraper.Prelude.{ℕ, Option, none, some}
use jobs_scraper.Prelude.Text.{Text, codes}
use jobs_scraper.Rows.{Reply}
use jobs_scraper.Server.{
  Response, status_response, created_response, write_db_error, path_id, bad_id, bad_request,
}
use jobs_scraper.Profiles.{Columns, AddWorkExperienceRequest, AddEducationRequest, Sections}
use jobs_scraper.Profiles.Store.{
  Run, AddBulletRequest, add_education, update_education, delete_education, add_skill, delete_skill,
  add_work_experience, update_work_experience, delete_work_experience, add_work_experience_bullet,
  update_work_experience_bullet, delete_work_experience_bullet,
}

module _ (c : Columns) where
  abbrev pub with_id :
      Text → Sections c → Option ℕ → (ℕ → Response × Sections c) → Response × Sections c
  with_id label s none next = (bad_id label, s)
  with_id label s (some id) next = next id

  abbrev pub with_body :
      {A : Type 0} → Sections c → Option A → (A → Response × Sections c) → Response × Sections c
  with_body s none next = (bad_request, s)
  with_body s (some req) next = next req

  abbrev pub answer :
      {A : Type 0} → Text → Text → (A → Response) → Reply A × Sections c → Response × Sections c
  answer not_found failure success (reply, s) = (write_db_error not_found failure success reply, s)

  abbrev pub updated : Unit {0} → Response
  updated u = status_response (codes "updated")

  abbrev pub deleted : Unit {0} → Response
  deleted u = status_response (codes "deleted")

  unfoldable pub handle_add_education :
      ℕ → Option (AddEducationRequest c) → Run → Sections c → Response × Sections c
  handle_add_education profile body up s = with_body s body λ req.
      answer (codes "profile not found") (codes "failed to add education entry") created_response
        (add_education c profile req up s)

  unfoldable pub handle_update_education :
      ℕ → Text → Option (AddEducationRequest c) → Run → Sections c → Response × Sections c
  handle_update_education profile raw body up s = with_id (codes "education") s (path_id raw) λ id.
      with_body s body λ req.
        answer (codes "education entry not found") (codes "failed to update education entry")
          updated (update_education c profile id req up s)

  unfoldable pub handle_delete_education : ℕ → Text → Run → Sections c → Response × Sections c
  handle_delete_education profile raw up s = with_id (codes "education") s (path_id raw) λ id.
      answer (codes "education entry not found") (codes "failed to delete education entry") deleted
        (delete_education c profile id up s)

  unfoldable pub handle_add_skill : ℕ → Option Text → Run → Sections c → Response × Sections c
  handle_add_skill profile body up s = with_body s body λ skill.
      answer (codes "profile not found") (codes "failed to add skill") created_response
        (add_skill c profile skill up s)

  unfoldable pub handle_delete_skill : ℕ → Text → Run → Sections c → Response × Sections c
  handle_delete_skill profile raw up s = with_id (codes "skill") s (path_id raw) λ id.
      answer (codes "skill not found") (codes "failed to delete skill") deleted
        (delete_skill c profile id up s)

  unfoldable pub handle_add_work_experience :
      ℕ → Option AddWorkExperienceRequest → Run → Sections c → Response × Sections c
  handle_add_work_experience profile body up s = with_body s body λ req.
      answer (codes "profile not found") (codes "failed to add work experience entry")
        created_response (add_work_experience c profile req up s)

  unfoldable pub handle_update_work_experience :
      ℕ → Text → Option AddWorkExperienceRequest → Run → Sections c → Response × Sections c
  handle_update_work_experience profile raw body up s =
      with_id (codes "work experience") s (path_id raw) λ id. with_body s body λ req.
        answer (codes "work experience entry not found")
          (codes "failed to update work experience entry") updated
          (update_work_experience c profile id req up s)

  unfoldable pub handle_delete_work_experience :
      ℕ → Text → Run → Run → Sections c → Response × Sections c
  handle_delete_work_experience profile raw up up_too s =
      with_id (codes "work experience") s (path_id raw) λ id.
        answer (codes "work experience entry not found")
          (codes "failed to delete work experience entry") deleted
          (delete_work_experience c profile id up up_too s)

  unfoldable pub handle_add_work_experience_bullet :
      ℕ → Text → Option AddBulletRequest → Run → Run → Sections c → Response × Sections c
  handle_add_work_experience_bullet profile raw body up up_too s =
      with_id (codes "work experience") s (path_id raw) λ work. with_body s body λ req.
        answer (codes "work experience entry not found") (codes "failed to add bullet")
          created_response (add_work_experience_bullet c profile work req up up_too s)

  unfoldable pub handle_update_work_experience_bullet :
      ℕ → Text → Text → Option Text → Run → Sections c → Response × Sections c
  handle_update_work_experience_bullet profile raw_work raw body up s =
      with_id (codes "work experience") s (path_id raw_work) λ work.
        with_id (codes "bullet") s (path_id raw) λ id. with_body s body λ bullet.
          answer (codes "bullet not found") (codes "failed to update bullet") updated
            (update_work_experience_bullet c profile work id bullet up s)

  unfoldable pub handle_delete_work_experience_bullet :
      ℕ → Text → Text → Run → Sections c → Response × Sections c
  handle_delete_work_experience_bullet profile raw_work raw up s =
      with_id (codes "work experience") s (path_id raw_work) λ work.
        with_id (codes "bullet") s (path_id raw) λ id.
          answer (codes "bullet not found") (codes "failed to delete bullet") deleted
            (delete_work_experience_bullet c profile work id up s)

-- A request of a profile that is signed in; `up` and `up_too` as above.
pub data Request (c : Columns) : Type 0 where
  post_education : Option (AddEducationRequest c) → Request c
  put_education : Text → Option (AddEducationRequest c) → Request c
  drop_education : Text → Request c
  post_skill : Option Text → Request c
  drop_skill : Text → Request c
  post_work : Option AddWorkExperienceRequest → Request c
  put_work : Text → Option AddWorkExperienceRequest → Request c
  drop_work : Text → Request c
  post_bullet : Text → Option AddBulletRequest → Request c
  put_bullet : Text → Text → Option Text → Request c
  drop_bullet : Text → Text → Request c

module _ (c : Columns) where
  unfoldable pub serve : ℕ → Run → Run → Request c → Sections c → Response × Sections c
  serve profile up up_too (post_education body) s = handle_add_education c profile body up s
  serve profile up up_too (put_education raw body) s =
      handle_update_education c profile raw body up s
  serve profile up up_too (drop_education raw) s = handle_delete_education c profile raw up s
  serve profile up up_too (post_skill body) s = handle_add_skill c profile body up s
  serve profile up up_too (drop_skill raw) s = handle_delete_skill c profile raw up s
  serve profile up up_too (post_work body) s = handle_add_work_experience c profile body up s
  serve profile up up_too (put_work raw body) s =
      handle_update_work_experience c profile raw body up s
  serve profile up up_too (drop_work raw) s =
      handle_delete_work_experience c profile raw up up_too s
  serve profile up up_too (post_bullet raw body) s =
      handle_add_work_experience_bullet c profile raw body up up_too s
  serve profile up up_too (put_bullet raw_work raw body) s =
      handle_update_work_experience_bullet c profile raw_work raw body up s
  serve profile up up_too (drop_bullet raw_work raw) s =
      handle_delete_work_experience_bullet c profile raw_work raw up s
