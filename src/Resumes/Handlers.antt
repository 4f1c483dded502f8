-- ===== src/Resumes/Handlers.antt =====
-- The handlers of resumes (backend/server/resumes.go), behind the middleware that finds the profile.
use jobs_scraper.Prelude.{
  ℕ, ◌*◌, ◌^◌, Bool, true, false, Option, none, some, List, [], length, ltb, if◌then◌else◌,
}
use jobs_scraper.Prelude.Keys.{nat_eq, list_eq}
use jobs_scraper.Prelude.Text.{Text, Unicode, codes}
use jobs_scraper.Tailoring.{ExtractedResume}
use jobs_scraper.Rows.{Reply, ok, invalid_input, no_rows, broken}
use jobs_scraper.Server.{
  Response, write_error, status_response, created_response, write_db_error, path_id, bad_id,
}
use jobs_scraper.Resumes.{
  Resume, Shelf, add_resume, set_active_resume, replace_resume, rename_resume, get_resume,
  delete_resume, upsert_resume_extraction_pending, save_resume_extraction_result,
  save_resume_extraction_failure, save_resume_embedding,
}
use jobs_scraper.Resumes.Names.{normalize_resume_name, name_message, content_type_for_resume}

-- 10 MiB
abbrev pub max_resume_size : ℕ
max_resume_size = 10 * 2 ^ 20

-- A multipart form: too large or malformed, without a file (with its `file_name` field), with a
-- file that cannot be opened, or with a file and its name.
pub data Upload : Type 0 where
  unreadable : Upload
  without_file : Text → Upload
  broken_file : Upload
  with_file : Text → List ℕ → Upload

-- What `readResumeUpload` returns: an error, a new name alone, or a file.
pub data Uploaded : Type 0 where
  refused : Text → Uploaded
  renamed : Text → Uploaded
  sent : Text → Text → List ℕ → Uploaded

-- How the model's extraction ends, and the embedding of what it found where that is made.
pub data Extracting (Vector : Type 0) : Type 0 where
  extracted : ExtractedResume → Option Vector → Extracting Vector
  unsupported : Text → Extracting Vector
  failed : Text → Extracting Vector

-- Which of the database's calls run, in order.
pub record Ups : Type 0 where
  pub first : Bool
  pub second : Bool
  pub third : Bool
  pub fourth : Bool

module _ (u : Unicode) where
  abbrev pub renamed_to : Text → Option Text → Uploaded
  renamed_to raw none = refused (name_message u raw)
  renamed_to raw (some file_name) = renamed file_name

  abbrev pub sent_as : Text → List ℕ → Option Text → Uploaded
  sent_as raw content none = refused (name_message u raw)
  sent_as raw content (some file_name) =
      if ltb max_resume_size (length content)
      then refused (codes "resume upload must be 10 MB or smaller")
      else sent file_name (content_type_for_resume u file_name) content

  unfoldable pub read_resume_upload : Bool → Upload → Uploaded
  read_resume_upload require_file unreadable =
      refused (codes "resume upload must be 10 MB or smaller")
  read_resume_upload require_file (without_file raw) =
      if require_file
      then refused (codes "a resume file is required")
      else renamed_to raw (normalize_resume_name u raw)
  read_resume_upload require_file broken_file = refused (codes "a resume file is required")
  read_resume_upload require_file (with_file raw content) =
      sent_as raw content (normalize_resume_name u raw)

module _ (Vector : Type 0) where
  abbrev pub marked_pending : Bool → Reply ℕ × Shelf Vector → Response × Shelf Vector
  marked_pending up (ok id, s) =
      (created_response id, (upsert_resume_extraction_pending Vector id up s).1)
  marked_pending up (invalid_input message, s) = (write_error 400 message, s)
  marked_pending up (no_rows, s) = (write_error 404 (codes "profile not found"), s)
  marked_pending up (broken, s) = (write_error 500 (codes "failed to upload resume"), s)

  -- A file is required, so a new name alone does not come here.
  abbrev pub upload : ℕ → Ups → Shelf Vector → Uploaded → Response × Shelf Vector
  upload profile ups s (refused message) = (write_error 400 message, s)
  upload profile ups s (renamed file_name) =
      marked_pending ups.second (add_resume Vector profile file_name [] [] ups.first s)
  upload profile ups s (sent file_name content_type content) =
      marked_pending ups.second
        (add_resume Vector profile file_name content_type content ups.first s)

  unfoldable pub handle_upload_resume :
      Unicode → ℕ → Upload → Ups → Shelf Vector → Response × Shelf Vector
  handle_upload_resume u profile body ups s = upload profile ups s (read_resume_upload u true body)

  abbrev pub answer : Text → Text → Text → Reply (Unit {0}) × Shelf Vector → Response × Shelf Vector
  answer done not_found failure (reply, s) =
      (write_db_error not_found failure (λ x. status_response done) reply, s)

  -- A file that replaced the old one is to be extracted again.
  abbrev pub pending_again :
      ℕ → Bool → Reply (Unit {0}) × Shelf Vector → Reply (Unit {0}) × Shelf Vector
  pending_again id up (ok x, s) = (ok x, (upsert_resume_extraction_pending Vector id up s).1)
  pending_again id up (invalid_input message, s) = (invalid_input message, s)
  pending_again id up (no_rows, s) = (no_rows, s)
  pending_again id up (broken, s) = (broken, s)

  abbrev pub update_with : ℕ → ℕ → Ups → Shelf Vector → Uploaded → Response × Shelf Vector
  update_with profile id ups s (refused message) = (write_error 400 message, s)
  update_with profile id ups s (renamed file_name) =
      answer (codes "updated") (codes "resume not found") (codes "failed to update resume")
        (rename_resume Vector profile id file_name ups.first s)
  update_with profile id ups s (sent file_name content_type content) =
      answer (codes "updated") (codes "resume not found") (codes "failed to update resume") (
        pending_again id ups.second
          (replace_resume Vector profile id file_name content_type content ups.first s))

  abbrev pub with_resume :
      Shelf Vector → (ℕ → Response × Shelf Vector) → Option ℕ → Response × Shelf Vector
  with_resume s next none = (bad_id (codes "resume"), s)
  with_resume s next (some id) = next id

  unfoldable pub handle_update_resume :
      Unicode → ℕ → Text → Upload → Ups → Shelf Vector → Response × Shelf Vector
  handle_update_resume u profile raw body ups s =
      with_resume s (λ id. update_with profile id ups s (read_resume_upload u false body))
        (path_id raw)

  unfoldable pub handle_delete_resume : ℕ → Text → Ups → Shelf Vector → Response × Shelf Vector
  handle_delete_resume profile raw ups s =
      with_resume s
        (λ id.
          answer (codes "deleted") (codes "resume not found") (codes "failed to delete resume")
            (delete_resume Vector profile id ups.first s))
        (path_id raw)

  unfoldable pub handle_activate_resume : ℕ → Text → Ups → Shelf Vector → Response × Shelf Vector
  handle_activate_resume profile raw ups s =
      with_resume s
        (λ id.
          answer (codes "activated") (codes "resume not found") (codes "failed to activate resume")
            (set_active_resume Vector profile id ups.first ups.second s))
        (path_id raw)

  abbrev pub embed_resume_extraction : ℕ → Option Vector → Bool → Shelf Vector → Shelf Vector
  embed_resume_extraction id none up s = s
  embed_resume_extraction id (some vector) up s = save_resume_embedding Vector id vector up s

  abbrev pub saved : ℕ → Option Vector → Bool → Bool × Shelf Vector → Text × Shelf Vector
  saved id vector up (false, s) = (codes "failed", s)
  saved id vector up (true, s) = (codes "completed", embed_resume_extraction id vector up s)

  abbrev pub extract : ℕ → Extracting Vector → Ups → Bool × Shelf Vector → Text × Shelf Vector
  extract id outcome ups (false, s) = (codes "failed", s)
  extract id (extracted fields vector) ups (true, s) =
      saved id vector ups.fourth (save_resume_extraction_result Vector id fields ups.third s)
  extract id (unsupported message) ups (true, s) = (
    codes "unsupported",
    (save_resume_extraction_failure Vector id (codes "unsupported") message ups.third s).1,
  )
  extract id (failed message) ups (true, s) = (
    codes "failed",
    (save_resume_extraction_failure Vector id (codes "failed") message ups.third s).1,
  )

  -- The status that is answered; the handler's own call on the database came first.
  unfoldable pub run_resume_extraction :
      ℕ → Extracting Vector → Ups → Shelf Vector → Text × Shelf Vector
  run_resume_extraction id outcome ups s =
      extract id outcome ups (upsert_resume_extraction_pending Vector id ups.second s)

  abbrev pub ran : Text × Shelf Vector → Response × Shelf Vector
  ran (status, s) = (status_response status, s)

  abbrev pub trigger :
      (Resume → Extracting Vector) → ℕ → Ups → Shelf Vector → Reply Resume → Response × Shelf Vector
  trigger outcome id ups s (ok resume) = ran (run_resume_extraction id (outcome resume) ups s)
  trigger outcome id ups s (invalid_input message) = (write_error 400 message, s)
  trigger outcome id ups s no_rows = (write_error 404 (codes "resume not found"), s)
  trigger outcome id ups s broken =
      (write_error 500 (codes "failed to trigger resume extraction"), s)

  -- `outcome` is what the extraction makes of a resume.
  unfoldable pub handle_trigger_resume_extraction :
      (Resume → Extracting Vector) → ℕ → Text → Ups → Shelf Vector → Response × Shelf Vector
  handle_trigger_resume_extraction outcome profile raw ups s =
      with_resume s (λ id. trigger outcome id ups s (get_resume Vector profile id ups.first s))
        (path_id raw)

  -- A request that changes something; downloads and readings do not.
  pub data Request : Type 0 where
    post_resume : Upload → Request
    put_resume : Text → Upload → Request
    drop_resume : Text → Request
    activate_resume : Text → Request
    extract_resume : (Resume → Extracting Vector) → Text → Request

  unfoldable pub serve : Unicode → ℕ → Ups → Request → Shelf Vector → Response × Shelf Vector
  serve u profile ups (post_resume body) s = handle_upload_resume u profile body ups s
  serve u profile ups (put_resume raw body) s = handle_update_resume u profile raw body ups s
  serve u profile ups (drop_resume raw) s = handle_delete_resume profile raw ups s
  serve u profile ups (activate_resume raw) s = handle_activate_resume profile raw ups s
  serve u profile ups (extract_resume outcome raw) s =
      handle_trigger_resume_extraction outcome profile raw ups s
