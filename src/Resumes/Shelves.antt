-- ===== src/Resumes/Shelves.antt =====
-- Runs of requests on resumes.
use jobs_scraper.Prelude.{
  ℕ, ◌≤◌, ◌≡◌, ◌∙◌, refl, sym, subst, inl, inr, Bool, true, false, ◌&&◌, Bool-cases, Option, none,
  some, Option-cases, List, [], ◌∷◌, ◌==◌ as nat_beq, arith,
}
use jobs_scraper.Prelude.Keys.{nat_eq, lookup}
use jobs_scraper.Prelude.Text.{Text, Unicode, is_some}
use jobs_scraper.Rows.{Reply, ok, invalid_input, no_rows, broken, first_row}
use jobs_scraper.Server.{path_id}
use jobs_scraper.Tailoring.{ExtractedResume}
use jobs_scraper.Resumes.{
  Resume, Extraction, Shelf, no_resumes, upsert_extraction, embedded, add_resume, replace_resume,
  get_resume, upsert_resume_extraction_pending, save_resume_extraction_result,
  save_resume_extraction_failure, save_resume_embedding,
}
use jobs_scraper.Resumes.Handlers.{
  Uploaded, refused, renamed, sent, Extracting, extracted, unsupported, failed, Ups,
  read_resume_upload, marked_pending, upload, handle_upload_resume, pending_again, update_with,
  handle_update_resume, handle_delete_resume, handle_activate_resume, embed_resume_extraction,
  saved, extract, run_resume_extraction, trigger, handle_trigger_resume_extraction, Request,
  post_resume, put_resume, drop_resume, activate_resume, extract_resume, serve,
}
use jobs_scraper.Resumes.Active.{
  actives, IsShelf, add_resume-IsShelf, set_active_resume-IsShelf, replace_resume-IsShelf,
  rename_resume-IsShelf, delete_resume-IsShelf,
}

module _ (V : Type 0) where
  pub upsert_extraction-table :
      (id : ℕ) (new : Extraction V) (change : Extraction V → Extraction V) (up : Bool) (s : Shelf V)
      → (upsert_extraction V id new change up s).1.table ≡ s.table
  upsert_extraction-table id new change up s =
      elim (Bool-cases (up && is_some (first_row (λ r. nat_beq r.id id) s.table.rows))) [
        | inl there ↦ rw there refl
        | inr missing ↦ rw missing refl
      ]

  pub pending-table :
      (id : ℕ) (up : Bool) (s : Shelf V)
      → (upsert_resume_extraction_pending V id up s).1.table ≡ s.table
  unfolding upsert_resume_extraction_pending
  pending-table id up s = upsert_extraction-table id _ _ up s

  result-table :
      (id : ℕ) (fields : ExtractedResume) (up : Bool) (s : Shelf V)
      → (save_resume_extraction_result V id fields up s).1.table ≡ s.table
  unfolding save_resume_extraction_result
  result-table id fields up s = upsert_extraction-table id _ _ up s

  failure-table :
      (id : ℕ) (status message : Text) (up : Bool) (s : Shelf V)
      → (save_resume_extraction_failure V id status message up s).1.table ≡ s.table
  unfolding save_resume_extraction_failure
  failure-table id status message up s = upsert_extraction-table id _ _ up s

  embedding-table :
      (id : ℕ) (vector : Option V) (up : Bool) (s : Shelf V)
      → (embed_resume_extraction V id vector up s).table ≡ s.table
  unfolding save_resume_embedding
  embedding-table id none up s = refl
  embedding-table id (some vector) false s = refl
  embedding-table id (some vector) true s = found (lookup id s.extractions)
    where
      found : (o : Option (Extraction V)) → (embedded V id vector s o).table ≡ s.table
      found none = refl
      found (some old) = refl

  saved-table :
      (id : ℕ) (vector : Option V) (up : Bool) (r : Bool × Shelf V)
      → (saved V id vector up r).1.table ≡ r.1.table
  saved-table id vector up (false, s) = refl
  saved-table id vector up (true, s) = embedding-table id vector up s

  extract-table :
      (id : ℕ) (outcome : Extracting V) (ups : Ups) (r : Bool × Shelf V)
      → (extract V id outcome ups r).1.table ≡ r.1.table
  extract-table id outcome ups (false, s) = refl
  extract-table id (extracted fields vector) ups (true, s) =
      saved-table id vector ups.fourth (save_resume_extraction_result V id fields ups.third s)
      ∙ result-table id fields ups.third s
  extract-table id (unsupported message) ups (true, s) = failure-table id _ message ups.third s
  extract-table id (failed message) ups (true, s) = failure-table id _ message ups.third s

  -- An extraction leaves the resumes alone.
  pub run_resume_extraction-table :
      (id : ℕ) (outcome : Extracting V) (ups : Ups) (s : Shelf V)
      → (run_resume_extraction V id outcome ups s).1.table ≡ s.table
  unfolding run_resume_extraction
  run_resume_extraction-table id outcome ups s =
      extract-table id outcome ups (upsert_resume_extraction_pending V id ups.second s)
      ∙ pending-table id ups.second s

  marked_pending-table :
      (up : Bool) (r : Reply ℕ × Shelf V) → (marked_pending V up r).1.table ≡ r.1.table
  marked_pending-table up (ok id, s) = pending-table id up s
  marked_pending-table up (invalid_input message, s) = refl
  marked_pending-table up (no_rows, s) = refl
  marked_pending-table up (broken, s) = refl

  pending_again-table :
      (id : ℕ) (up : Bool) (r : Reply (Unit {0}) × Shelf V)
      → (pending_again V id up r).1.table ≡ r.1.table
  pending_again-table id up (ok x, s) = pending-table id up s
  pending_again-table id up (invalid_input message, s) = refl
  pending_again-table id up (no_rows, s) = refl
  pending_again-table id up (broken, s) = refl

  upload-IsShelf :
      (profile : ℕ) (ups : Ups) (s : Shelf V) (o : Uploaded)
      → IsShelf s.table
      → IsShelf (upload V profile ups s o).1.table
  upload-IsShelf profile ups s (refused message) h = h
  upload-IsShelf profile ups s (renamed name) h =
      subst IsShelf
        (sym (marked_pending-table ups.second (add_resume V profile name [] [] ups.first s)))
        (add_resume-IsShelf V profile name [] [] ups.first s h)
  upload-IsShelf profile ups s (sent name type content) h =
      subst IsShelf
        (sym (marked_pending-table ups.second (add_resume V profile name type content ups.first s)))
        (add_resume-IsShelf V profile name type content ups.first s h)

  update_with-IsShelf :
      (profile id : ℕ) (ups : Ups) (s : Shelf V) (o : Uploaded)
      → IsShelf s.table
      → IsShelf (update_with V profile id ups s o).1.table
  update_with-IsShelf profile id ups s (refused message) h = h
  update_with-IsShelf profile id ups s (renamed name) h =
      rename_resume-IsShelf V profile id name ups.first s h
  update_with-IsShelf profile id ups s (sent name type content) h =
      subst IsShelf
        (sym (
          pending_again-table id ups.second
            (replace_resume V profile id name type content ups.first s)))
        (replace_resume-IsShelf V profile id name type content ups.first s h)

  trigger-IsShelf :
      (outcome : Resume → Extracting V) (id : ℕ) (ups : Ups) (s : Shelf V) (r : Reply Resume)
      → IsShelf s.table
      → IsShelf (trigger V outcome id ups s r).1.table
  trigger-IsShelf outcome id ups s (ok resume) h =
      subst IsShelf (sym (run_resume_extraction-table id (outcome resume) ups s)) h
  trigger-IsShelf outcome id ups s (invalid_input message) h = h
  trigger-IsShelf outcome id ups s no_rows h = h
  trigger-IsShelf outcome id ups s broken h = h

  serve-IsShelf :
      (u : Unicode) (profile : ℕ) (ups : Ups) (req : Request V) (s : Shelf V)
      → IsShelf s.table
      → IsShelf (serve V u profile ups req s).1.table
  unfolding serve handle_upload_resume handle_update_resume handle_delete_resume
      handle_activate_resume handle_trigger_resume_extraction
  serve-IsShelf u profile ups (post_resume body) s h =
      upload-IsShelf profile ups s (read_resume_upload u true body) h
  serve-IsShelf u profile ups (put_resume raw body) s h = elim (Option-cases (path_id raw)) [
    | inl bad ↦ rw (bad, serve, handle_update_resume) h
    | inr (id, good) ↦
        rw (good, serve, handle_update_resume)
          (update_with-IsShelf profile id ups s (read_resume_upload u false body) h)
  ]
  serve-IsShelf u profile ups (drop_resume raw) s h = elim (Option-cases (path_id raw)) [
    | inl bad ↦ rw (bad, serve, handle_delete_resume) h
    | inr (id, good) ↦
        rw (good, serve, handle_delete_resume) (delete_resume-IsShelf V profile id ups.first s h)
  ]
  serve-IsShelf u profile ups (activate_resume raw) s h = elim (Option-cases (path_id raw)) [
    | inl bad ↦ rw (bad, serve, handle_activate_resume) h
    | inr (id, good) ↦
        rw (good, serve, handle_activate_resume)
          (set_active_resume-IsShelf V profile id ups.first ups.second s h)
  ]
  serve-IsShelf u profile ups (extract_resume outcome raw) s h = elim (Option-cases (path_id raw)) [
    | inl bad ↦ rw (bad, serve, handle_trigger_resume_extraction) h
    | inr (id, good) ↦
        rw (good, serve, handle_trigger_resume_extraction)
          (trigger-IsShelf outcome id ups s (get_resume V profile id ups.first s) h)
  ]

  -- A request of a profile, and which of the database's calls run.
  pub record Call : Type 0 where
    pub profile : ℕ
    pub ups : Ups
    pub request : Request V

  -- The shelf after requests, the first one first.
  unfoldable pub serve_all : Unicode → List Call → Shelf V → Shelf V
  serve_all u [] s = s
  serve_all u (call ∷ calls) s =
      serve_all u calls (serve V u call.profile call.ups call.request s).1

  serve_all-IsShelf :
      (u : Unicode) (calls : List Call) (s : Shelf V)
      → IsShelf s.table
      → IsShelf (serve_all u calls s).table
  unfolding serve_all
  serve_all-IsShelf u [] s h = h
  serve_all-IsShelf u (call ∷ calls) s h =
      serve_all-IsShelf u calls (serve V u call.profile call.ups call.request s).1
        (serve-IsShelf u call.profile call.ups call.request s h)

  -- From an empty table, whatever uploads, replacements, renamings, deletions, activations and
  -- extractions any profiles request, and whichever calls the database runs, no profile ever has two
  -- active resumes.
  pub serve_all-one_active :
      (u : Unicode) (calls : List Call) (profile : ℕ)
      → actives profile (serve_all u calls (no_resumes V)).table.rows ≤ 1
  serve_all-one_active u calls profile =
      (serve_all-IsShelf u calls (no_resumes V) ((λ other. omega arith), (tt, tt))).0 profile
