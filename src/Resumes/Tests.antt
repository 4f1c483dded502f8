-- ===== src/Resumes/Tests.antt =====
-- Resumes of two profiles.
use jobs_scraper.Prelude.{ℕ, ◌≤◌, ◌≡◌, refl, true, none, some, List, [], ◌∷◌}
use jobs_scraper.Prelude.Keys.{nat_eq, list_eq, lookup}
use jobs_scraper.Prelude.Text.{ascii_only, codes, atoi}
use jobs_scraper.Tailoring.{ExtractedResume}
use jobs_scraper.Rows.{Row, ok}
use jobs_scraper.Server.{status_response, path_id}
use jobs_scraper.Resumes.{Resume, Extraction, Shelf, no_resumes, get_resume_extraction}
use jobs_scraper.Resumes.Names.{normalize_resume_name}
use jobs_scraper.Resumes.Handlers.{
  with_file, Extracting, extracted, handle_trigger_resume_extraction, post_resume, activate_resume,
}
use jobs_scraper.Resumes.Active.{actives}
use jobs_scraper.Resumes.Shelves.{Call, serve_all, serve_all-one_active}
use jobs_scraper.Resumes.Extracted.{
  Reports, Embeds, made_embedding, all_up, handle_trigger_resume_extraction-Reports,
}

named_pdf :
    normalize_resume_name ascii_only (codes " dir/My.Resume.PDF ") ≡ some (codes "My.Resume.PDF")
unfolding normalize_resume_name
named_pdf = refl

named_text : normalize_resume_name ascii_only (codes "resume.txt") ≡ none
unfolding normalize_resume_name
named_text = refl

-- Vectors are numbers here.
abbrev calls : List (Call ℕ)
calls =
    record {
      profile = 1;
      ups = all_up ℕ;
      request = post_resume (with_file (codes "a.pdf") (7 ∷ []));
    }
    ∷ record {
      profile = 1;
      ups = all_up ℕ;
      request = post_resume (with_file (codes "b.docx") (8 ∷ []));
    }
    ∷ record { profile = 1; ups = all_up ℕ; request = activate_resume (codes "2") }
    ∷ []

serve_all-one_active_example :
    actives 1 (serve_all ℕ ascii_only calls (no_resumes ℕ)).table.rows ≤ 1
serve_all-one_active_example = serve_all-one_active ℕ ascii_only calls 1

abbrev no_fields : ExtractedResume
no_fields = record {
  full_name = codes "A B";
  email = [];
  phone = [];
  linked_in = [];
  git_hub = [];
  portfolio = [];
  summary = [];
  skills = codes "Go" ∷ [];
  education = [];
  work_experience = [];
  projects = [];
}

abbrev resume : Resume
resume = record {
  file_name = codes "a.pdf";
  content_type = codes "application/pdf";
  file_size = 1;
  content = 7 ∷ [];
  is_active = true;
}

abbrev stored : Row Resume
stored = record { id = 1; owner = 1; value = resume }

-- The resume was extracted before, with an embedding.
abbrev before : Extraction ℕ
before = record { status = codes "completed"; fields = none; error = none; embedding = some 5 }

abbrev shelf : Shelf ℕ
shelf = record {
  table = record { rows = stored ∷ []; next_id = 2 };
  extractions = (1, before) ∷ [];
}

-- The extraction succeeds, and the embedding fails.
abbrev outcome : Resume → Extracting ℕ
outcome r = extracted no_fields none

handle_trigger_resume_extraction-Reports_example :
    (e : Extraction ℕ) × ((handle_trigger_resume_extraction ℕ outcome 1
        (codes "1")
        (all_up ℕ)
        shelf).0
      ≡ status_response e.status)
    × (get_resume_extraction ℕ 1 1 true
          (handle_trigger_resume_extraction ℕ outcome 1 (codes "1") (all_up ℕ) shelf).1
        ≡ ok e)
    × Reports ℕ (outcome resume) (lookup 1 shelf.extractions) e
    × Embeds ℕ (made_embedding ℕ (outcome resume)) (lookup 1 shelf.extractions) e
unfolding path_id atoi
handle_trigger_resume_extraction-Reports_example =
    handle_trigger_resume_extraction-Reports ℕ outcome 1 1 (codes "1") shelf stored refl refl
