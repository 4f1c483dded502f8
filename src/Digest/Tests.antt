-- ===== src/Digest/Tests.antt =====
-- A digest with whole numbers for scores.
use jobs_scraper.Prelude.{
  ℕ, ◌*◌, ◌≡◌, ◌⊎◌, refl, true, false, none, some, List, [], ◌∷◌, ltb, leb, All, ◌==◌ as nat_beq,
  arith,
}
use jobs_scraper.Prelude.Text.{Text, codes, ascii_only, split}
use jobs_scraper.Jobs.{Job, unknown}
use jobs_scraper.Tailoring.{ExtractedResume}
use jobs_scraper.Relevance.{search_query, query_terms, resume_terms, split_terms, unique_from}
use jobs_scraper.Digest.{
  Scores, Candidate, best_score, fits, good_fit_jobs, DigestProfile, extracted, mail, no_mark,
  Services, send_for_profile,
}
use jobs_scraper.Digest.Fits.{Has, IsAtMost, good_fit_jobs-Has}
use jobs_scraper.Digest.Sending.{IsHonest, send_for_profile-IsHonest}

abbrev whole : Scores
whole = record {
  Score = ℕ;
  nothing = 0;
  above = λ x y. ltb y x;
  is_nothing = λ x. nat_beq x 0;
  is_fit = λ x y. leb (4 * y) (10 * x);
}

abbrev posting : Job
posting = record {
  title = codes "Clerk";
  company = codes "Acme";
  location = [];
  workplace_type = unknown;
  tags = [];
  salary_min = none;
  salary_max = none;
  posted_at = 0;
  url = codes "u";
  description = [];
}

abbrev candidates : List (Candidate whole)
candidates =
    (record { job = posting; match_score = some 39 })
    ∷ (record { job = posting; match_score = none })
    ∷ (record { job = posting; match_score = some 100 })
    ∷ (record { job = posting; match_score = some 40 })
    ∷ []

abbrev good : List (Candidate whole)
good =
    (record { job = posting; match_score = some 100 })
    ∷ (record { job = posting; match_score = some 40 })
    ∷ []

at_forty_percent : good_fit_jobs whole candidates ≡ good
unfolding good_fit_jobs best_score
at_forty_percent = refl

good_fit_jobs-Has_example :
    All (λ c. IsAtMost whole (best_score whole candidates 0) c.match_score) candidates
    × (((nat_beq (best_score whole candidates 0) 0 ≡ true) × (good_fit_jobs whole candidates ≡ []))
        ⊎ (Has whole (best_score whole candidates 0) (good_fit_jobs whole candidates)
            × All
                (λ c. fits whole (best_score whole candidates 0) c.match_score ≡ true)
                (good_fit_jobs whole candidates)))
good_fit_jobs-Has_example =
    good_fit_jobs-Has whole candidates refl (λ s h. ground arith) (λ s. ground arith)
      (λ s t h. ground arith) (λ r s t h k. ground arith)

abbrev resume : ExtractedResume
resume = record {
  full_name = [];
  email = [];
  phone = [];
  linked_in = [];
  git_hub = [];
  portfolio = [];
  summary = [];
  skills = codes "Go" ∷ [];
  education = [];
  work_experience = [];
  projects = [];
}

abbrev services : Services whole
services = record {
  extraction = extracted resume;
  search = λ query since. some candidates;
  delivers = true;
  marks = false;
}

abbrev profile : DigestProfile
profile = record { profile_id = 7; email = codes "a@b.c"; last_digest_sent_at = some 5 }

abbrev at_commas : Text → List Text
at_commas s = split s b','

mailed_unmarked :
    send_for_profile whole services at_commas ascii_only profile 9 10
    ≡ (no_mark, mail (codes "a@b.c") good ∷ [])
unfolding send_for_profile good_fit_jobs best_score search_query query_terms resume_terms
    split_terms unique_from
mailed_unmarked = refl

send_for_profile-IsHonest_example :
    IsHonest whole services at_commas ascii_only profile 9 10
      (send_for_profile whole services at_commas ascii_only profile 9 10)
send_for_profile-IsHonest_example =
    send_for_profile-IsHonest whole services at_commas ascii_only profile 9 10
