-- ===== src/Relevance/Tests.antt =====
-- The query of a small resume.
use jobs_scraper.Prelude.{◌≡◌, refl, List, [], ◌∷◌}
use jobs_scraper.Prelude.Text.{Text, codes, ascii_only, split}
use jobs_scraper.Tailoring.{ExtractedResume}
use jobs_scraper.Relevance.{split_terms, resume_terms, unique_from, query_terms, search_query}
use jobs_scraper.Relevance.Terms.{AreTerms, query_terms-AreTerms}

-- A pattern that matches commas alone.
abbrev at_commas : Text → List Text
at_commas s = split s b','

abbrev resume : ExtractedResume
resume = record {
  full_name = codes "Ada";
  email = [];
  phone = [];
  linked_in = [];
  git_hub = [];
  portfolio = [];
  summary = [];
  skills = codes "Go, SQL" ∷ codes "go" ∷ [];
  education =
      (record {
        school_name = [];
        degree = [];
        major = codes "Maths";
        start_date = [];
        end_date = [];
      })
      ∷ [];
  work_experience = [];
  projects =
      (record { name = []; url = []; technologies = codes "sql" ∷ codes "C" ∷ []; bullets = [] })
      ∷ [];
}

query_of_resume : search_query at_commas ascii_only resume ≡ codes "Go OR SQL OR Maths OR C"
unfolding search_query query_terms resume_terms split_terms unique_from
query_of_resume = refl

query_terms-AreTerms_example :
    AreTerms ascii_only (resume_terms at_commas resume) (query_terms at_commas ascii_only resume)
query_terms-AreTerms_example = query_terms-AreTerms at_commas ascii_only resume
