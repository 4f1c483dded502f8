-- ===== src/Postings/Tests.antt =====
-- A posting with a salary, and a block of two postings.
use jobs_scraper.Prelude.{ℕ, ◌*◌, ◌≡◌, ◌↔◌, refl, true, none, some, [], ◌∷◌, ltb, arith, List}
use jobs_scraper.Prelude.Int.{pos}
use jobs_scraper.Prelude.Keys.{nat_eq, list_eq}
use jobs_scraper.Prelude.Text.{ascii_only, codes, atoi}
use jobs_scraper.Server.{row_number}
use jobs_scraper.Crawl.Site.{parse_date, try_layouts}
use jobs_scraper.Postings.{
  is_job_posting, find_postings, Numbers, Value, null, number, string, array, object, no_items,
  item, Fields, no_fields, field, walk, texts, texts_at, text_at, field_of,
}
use jobs_scraper.Postings.Salary.{
  yearly, number_at, objects, salary_per_year, normalize_period, yearly_salary,
}
use jobs_scraper.Postings.Mapping.{Reading, title_of, valid_through, job_of, to_job}
use jobs_scraper.Postings.Found.{Stands, Has, walk-iff-Stands}
use jobs_scraper.Postings.Pages.{Element, parse_page, resolve_link}
use jobs_scraper.Postings.Fit.{RoundsWithin, IsFitJob, to_job-IsFitJob}

-- Whole numbers.
abbrev whole : Numbers
whole = record {
  Float = ℕ;
  nought = 0;
  show = λ x. x ∷ [];
  parse = λ s. row_number (atoi s);
  times = λ x k. x * k;
  below = λ x k. ltb x k;
  above = λ x k. ltb k x;
  round = λ x. pos x;
  is_number = λ x. true;
}

abbrev plain : Reading
plain = record {
  unicode = ascii_only;
  parse_time = λ layout s. none;
  strip_html = λ s. s;
  unescape = λ s. s;
  title_workplace = λ s. none;
}

abbrev salary : Fields whole
salary = field (codes "currency") (string (codes "USD")) (
    field (codes "value")
      (object (
        field (codes "minValue") (number 50) (
          field (codes "maxValue") (number 60)
            (field (codes "unitText") (string (codes "HOUR")) no_fields))))
      no_fields)

abbrev posting : Fields whole
posting = field (codes "@type") (string (codes "JobPosting")) (
    field (codes "title") (string (codes " Engineer "))
      (field (codes "baseSalary") (object salary) no_fields))

hourly :
    yearly_salary whole ascii_only (some (object salary)) ≡ (some (pos 104_000), some (pos 124_800))
unfolding yearly_salary objects number_at salary_per_year normalize_period yearly text_at texts_at
    texts
hourly = refl

-- A bound that is `null` counts as 0, and the value beside it is lost.
null_bound :
    yearly_salary whole ascii_only (
      some (
        object (
          field
            (codes "value")
            (object (
              field
                (codes "value")
                (number 90_000)
                (field (codes "minValue") null (field (codes "maxValue") null no_fields))))
            no_fields)))
    ≡ (none, none)
unfolding yearly_salary objects number_at salary_per_year normalize_period yearly text_at texts_at
    texts
null_bound = refl

rounds : RoundsWithin whole
rounds x counts enough fits = (ground arith, ground arith)

to_job-IsFitJob_example :
    IsFitJob plain whole posting
      (codes "https://x")
      5
      (job_of plain whole posting (codes "https://x") [])
unfolding to_job title_of valid_through field_of text_at texts_at texts parse_date try_layouts
to_job-IsFitJob_example =
    to_job-IsFitJob plain whole posting (codes "https://x") [] 5
      (job_of plain whole posting (codes "https://x") []) rounds refl

abbrev block : Value whole
block =
    object (field (codes "@graph") (array (item null (item (object posting) no_items))) no_fields)

walk-iff-Stands_example : Has whole posting (walk whole block) ↔ Stands whole posting block
walk-iff-Stands_example = walk-iff-Stands whole posting block

-- A script of the right type with the block, and two links.
abbrev nodes : List Element
nodes =
    record {
      name = codes "script";
      attributes = (codes "type", codes "application/LD+JSON") ∷ [];
      first_child = some (codes "{}");
    }
    ∷ record {
      name = codes "a";
      attributes = (codes "href", codes " /jobs ") ∷ [];
      first_child = none;
    }
    ∷ record {
      name = codes "a";
      attributes = (codes "href", codes "#top") ∷ [];
      first_child = none;
    }
    ∷ []

one_page :
    parse_page whole ascii_only
      (λ s. some block)
      (λ s. some (record { scheme = codes "https"; text = s }))
      nodes
    ≡ record { postings = posting ∷ []; links = codes "/jobs" ∷ [] }
unfolding parse_page resolve_link find_postings walk is_job_posting
one_page = refl
