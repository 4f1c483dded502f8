-- ===== src/Postings/Mapping.antt =====
-- A posting as a job (backend/crawler/extract.go: toJob, truncateRunes).
use jobs_scraper.Prelude.{
  ℕ, Bool, not, ◌&&◌, Option, none, some, List, [], ◌∷◌, ◌++◌, length, take, leb, ltb,
  if◌then◌else◌, ◌==◌ as nat_beq,
}
use jobs_scraper.Prelude.Keys.{◌==◌, nat_eq, list_eq}
use jobs_scraper.Prelude.Text.{Text, Unicode, codes, trim_space, equal_fold, join}
use jobs_scraper.Jobs.{Time, Job, WorkplaceType, remote, hybrid, in_person, workplace_from_location}
use jobs_scraper.Crawl.Site.{parse_date}
use jobs_scraper.Postings.{Numbers, Fields, texts_at, text_at, field_of}
use jobs_scraper.Postings.Salary.{yearly_salary}
use jobs_scraper.Postings.Places.{places_text, employment_tags, clean_tags}

-- What reads texts: the case tables, `time.Parse`, `utils.StripHTML`, the decoding of escapes and
-- entities, and the group that `titleWorkplace` finds in a title.
pub record Reading : Type 0 where
  pub unicode : Unicode
  pub parse_time : Text → Text → Option Time
  pub strip_html : Text → Text
  pub unescape : Text → Text
  pub title_workplace : Text → Option Text

abbrev pub max_description_runes : ℕ
max_description_runes = 20000

-- With an ellipsis where it is cut.
unfoldable pub truncate_runes : Text → ℕ → Text
truncate_runes s limit =
    if leb (length s) limit then s else trim_space (take limit s) ++ 0x2026 ∷ []

module _ (r : Reading) (n : Numbers) where
  abbrev pub text_field : Text → Fields n → Text
  text_field name posting = text_at n (field_of n r.unicode name posting)

  abbrev pub texts_field : Text → Fields n → List Text
  texts_field name posting = texts_at n (field_of n r.unicode name posting)

  unfoldable pub title_of : Fields n → Text
  title_of posting =
      let title = text_field (codes "title") posting in
      if title == [] then text_field (codes "name") posting else title

  -- The zero time where there is none.
  unfoldable pub valid_through : Fields n → Time
  valid_through posting = parse_date r.parse_time (text_field (codes "validThrough") posting)

  abbrev pub is_remote : Fields n → Bool
  is_remote posting =
      equal_fold r.unicode (text_field (codes "jobLocationType") posting) (codes "TELECOMMUTE")

  abbrev pub remote_location : Text → Text
  remote_location regions =
      if regions == [] then codes "Remote" else codes "Remote" ++ (codes " - " ++ regions)

  unfoldable pub location_of : Fields n → Text
  location_of posting =
      let places = places_text n (field_of n r.unicode (codes "jobLocation") posting) in
      if is_remote posting && places == []
      then remote_location
          (join (texts_field (codes "applicantLocationRequirements") posting) (codes ", "))
      else places

  abbrev pub titled_workplace : WorkplaceType → Option Text → WorkplaceType
  titled_workplace otherwise none = otherwise
  titled_workplace otherwise (some word) =
      if equal_fold r.unicode word (codes "hybrid") then hybrid else in_person

  unfoldable pub workplace_of : Fields n → WorkplaceType
  workplace_of posting =
      titled_workplace
        (if is_remote posting
          then remote
          else workplace_from_location r.unicode
              (places_text n (field_of n r.unicode (codes "jobLocation") posting)))
        (r.title_workplace (title_of posting))

  abbrev pub all_tags : Fields n → List Text
  all_tags posting =
      employment_tags n r.unicode (field_of n r.unicode (codes "employmentType") posting)
      ++ (texts_field (codes "occupationalCategory") posting
          ++ texts_field (codes "industry") posting)

  unfoldable pub job_of : Fields n → Text → Text → Job
  job_of posting page_url company =
      let salary = yearly_salary n r.unicode (field_of n r.unicode (codes "baseSalary") posting) in
      record {
        title = trim_space (r.strip_html (title_of posting));
        company =
            trim_space
              (if company == [] then text_field (codes "hiringOrganization") posting else company);
        location = location_of posting;
        workplace_type = workplace_of posting;
        tags = clean_tags r.unescape (all_tags posting);
        salary_min = salary.0;
        salary_max = salary.1;
        posted_at = parse_date r.parse_time (text_field (codes "datePosted") posting);
        url = page_url;
        description =
            truncate_runes (r.strip_html (text_field (codes "description") posting))
              max_description_runes;
      }

  -- `none` for a posting without a title or past its `validThrough`.
  unfoldable pub to_job : Fields n → Text → Text → Time → Option Job
  to_job posting page_url company now =
      if title_of posting == []
      then none
      else if not (nat_beq (valid_through posting) 0) && ltb (valid_through posting) now
      then none
      else some (job_of posting page_url company)
