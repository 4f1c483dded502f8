-- ===== src/Profiles/Tests.antt =====
-- The sections of two profiles, run on requests.
use jobs_scraper.Prelude.{ℕ, ◌≤◌, ◌≡◌, refl, none, some, List, [], ◌∷◌, arith}
use jobs_scraper.Prelude.Text.{codes, atoi}
use jobs_scraper.Prelude.Int.{pos}
use jobs_scraper.Server.{path_id, row_number}
use jobs_scraper.Rows.{no_rows_yet}
use jobs_scraper.Rows.Owners.{rows_of}
use jobs_scraper.Profiles.{
  Columns, WorkExperience, job_type_full_time, AddWorkExperienceRequest, AddEducationRequest,
  Sections, no_sections,
}
use jobs_scraper.Profiles.Store.{ran, refused, AddBulletRequest}
use jobs_scraper.Profiles.Handlers.{
  handle_delete_skill, Request, post_education, post_skill, post_work, post_bullet, drop_work,
  drop_skill, serve,
}
use jobs_scraper.Profiles.Served.{Call, serve_all}
use jobs_scraper.Profiles.Unique.{AreTables, serve_all-AreTables}
use jobs_scraper.Profiles.Owners.{SameSections, serve-others}
use jobs_scraper.Profiles.Errors.{serve-error, drop_work-half_done}

-- Days are numbers here, and grades too.
abbrev numbers : Columns
numbers = record { Gpa = ℕ; parse_day = λ raw. row_number (atoi raw); day_error = λ raw. raw }

abbrev school : AddEducationRequest numbers
school = record {
  school_name = codes "State";
  major = codes "CS";
  degree = codes "BSc";
  gpa = none;
  start_date = [];
  end_date = codes "7";
}

abbrev job : AddWorkExperienceRequest
job = record {
  company = codes "Acme";
  job_title = codes "Engineer";
  job_type = codes "full_time";
  location = [];
  start_date = codes "3";
  end_date = [];
}

abbrev bullet : AddBulletRequest
bullet = record { bullet = codes "Wrote code"; position = pos 0 }

abbrev call : ℕ → Request numbers → Call numbers
call profile request = record { profile = profile; up = ran; up_too = ran; request = request }

abbrev calls : List (Call numbers)
calls =
    call 1 (post_education (some school))
    ∷ call 2 (post_education (some school))
    ∷ call 1 (post_work (some job))
    ∷ call 1 (post_bullet (codes "1") (some bullet))
    ∷ call 1 (post_skill (some (codes "Go")))
    ∷ call 1 (post_skill (some (codes "Go")))
    ∷ []

abbrev sections : Sections numbers
sections = serve_all numbers calls (no_sections numbers)

serve_all-AreTables_example : AreTables numbers sections
serve_all-AreTables_example = serve_all-AreTables numbers calls

serve-others_example :
    SameSections numbers 1 sections (serve numbers 2 ran ran (drop_work (codes "1")) sections).1
serve-others_example = serve-others numbers calls 2 1 ran ran (drop_work (codes "1")) (omega arith)

abbrev entry : WorkExperience
entry = record {
  company = codes "Acme";
  job_title = codes "Engineer";
  job_type = job_type_full_time;
  location = none;
  start_date = some 3;
  end_date = none;
}

abbrev one_entry : Sections numbers
one_entry = record {
  education = no_rows_yet;
  skills = no_rows_yet;
  work = record { rows = (record { id = 1; owner = 1; value = entry }) ∷ []; next_id = 2 };
  bullets = record {
    rows =
        (record {
          id = 1;
          owner = 1;
          value = record { bullet = codes "Wrote code"; position = pos 0 };
        })
        ∷ [];
    next_id = 2;
  };
}

bad_id : 400 ≤ (serve numbers 1 ran ran (drop_skill (codes "x")) one_entry).0.status
unfolding serve handle_delete_skill path_id atoi
bad_id = omega arith

serve-error_example : (serve numbers 1 ran ran (drop_skill (codes "x")) one_entry).1 ≡ one_entry
serve-error_example =
    serve-error numbers 1 ran (drop_skill (codes "x")) one_entry (λ e. ground arith) bad_id

drop_work-half_done_example :
    ((serve numbers 1 ran refused (drop_work (codes "1")) one_entry).0.status ≡ 500)
    × (((serve numbers 1 ran refused (drop_work (codes "1")) one_entry).1.work ≡ one_entry.work)
        × (rows_of 1 (serve numbers 1 ran refused (drop_work (codes "1")) one_entry).1.bullets
            ≡ []))
unfolding path_id atoi
drop_work-half_done_example = drop_work-half_done numbers 1 1 (codes "1") one_entry refl refl
