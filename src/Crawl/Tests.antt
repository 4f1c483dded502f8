-- ===== src/Crawl/Tests.antt =====
-- A crawl of a small site: a start page with three links, of which one leaves the site, one is
-- forbidden and one leads to a posting.
use jobs_scraper.Prelude.{
  ℕ, ◌≡◌, ◌≤◌, refl, false, ◌&&◌, Option, none, some, List, [], ◌∷◌, ◌++◌, length, All, leb, ltb,
  if◌then◌else◌,
}
use jobs_scraper.Prelude.Floats.{Floats}
use jobs_scraper.Prelude.Int.{pos}
use jobs_scraper.Prelude.Keys.{nat_eq, list_eq, lookup, count}
use jobs_scraper.Prelude.Text.{Text, codes, ascii_only}
use jobs_scraper.Prelude.Sort.{sort_newest}
use jobs_scraper.Jobs.{Job, unknown}
use jobs_scraper.Prelude.Regexp.{
  quote_meta, is_special, match_string, must_compile, read_items, matches,
}
use jobs_scraper.Robots.{
  Robots, parse_robots, allowed, replace_stars, new_robots_rule, names, pick_groups, with_groups,
}
use jobs_scraper.Crawl.Site.{
  Url, Page, Response, World, Seed, Crawler, fetch_robots, answered, fetch_sitemap, fetch_page,
  wanted, in_scope, request_path, newest_first, parse_date, product_token, max_depth,
}
use jobs_scraper.Crawl.Site
use jobs_scraper.Crawl.Steps.{
  Walk, Outcome, refused, disallowed, crawled, crawl_seed, crawl_with, crawl_loop, start_walk,
  walk_more, sitemap_pages, sitemap_walk, pick_new,
}
use jobs_scraper.Crawl.Hosts.{
  wait_for, slow, Use, every, delay_of, longest_delay, get_limiter, slow_to, use_limiter,
  use_limiters, use_limiters-longest_delay,
}
use jobs_scraper.Crawl.Races.{
  Racing, compare_limit, compares, sets, Reach, start, later, Reach-least_delay,
}
use jobs_scraper.Crawl.Seeds.{fetch_jobs, all_failed, all_found, fetch_jobs-all_found}
use jobs_scraper.Crawl.Once.{crawl_seed-once}
use jobs_scraper.Crawl.Polite.{IsPermitted, crawl_seed-Permitted}
use jobs_scraper.Crawl.Budget.{Shallow, crawl_seed-budget}

abbrev no_fractions : Floats
no_fractions = record {
  Float = ℕ;
  parse_float = λ s. none;
  is_positive = λ n. leb 1 n;
  seconds = λ n. pos n;
}

abbrev url_at : Text → Text → Url
url_at host path = record {
  scheme = codes "https";
  host = host;
  path = path;
  escaped_path = path;
  raw_query = [];
}

abbrev home : Text
home = codes "h/jobs"

abbrev posting : Text
posting = codes "h/jobs/1"

abbrev secret : Text
secret = codes "h/jobs/x"

abbrev elsewhere : Text
elsewhere = codes "g/jobs"

abbrev known_urls : List (Text × Url)
known_urls =
    (home, url_at (codes "h") (codes "/jobs"))
    ∷ (posting, url_at (codes "H") (codes "/jobs/1"))
    ∷ (secret, url_at (codes "h") (codes "/jobs/x"))
    ∷ (elsewhere, url_at (codes "g") (codes "/jobs"))
    ∷ []

abbrev html_page : Text → Page ℕ → Response ℕ
html_page path p = record {
  status = 200;
  content_type = codes "text/HTML; charset=utf-8";
  final = url_at (codes "h") path;
  final_text = codes "h" ++ path;
  lines = [];
  sitemap = none;
  page = some p;
}

abbrev robots_file : Response ℕ
robots_file = record (html_page (codes "/jobs") (record { postings = []; links = [] })) {
  lines = codes "User-agent: *" ∷ codes "Disallow: /jobs/x" ∷ [];
}

abbrev answers : List (Text × Response ℕ)
answers =
    (codes "https://h/robots.txt", robots_file)
    ∷ (
      home,
      html_page (codes "/jobs")
          (record { postings = []; links = posting ∷ secret ∷ elsewhere ∷ posting ∷ home ∷ [] }),
    )
    ∷ (posting, html_page (codes "/jobs/1") (record { postings = 7 ∷ []; links = secret ∷ [] }))
    ∷ []

abbrev job : Job
job = record {
  title = codes "Clerk";
  company = codes "H";
  location = [];
  workplace_type = unknown;
  tags = [];
  salary_min = none;
  salary_max = none;
  posted_at = 0;
  url = posting;
  description = [];
}

abbrev site : World ℕ
site = record {
  parse_url = λ s. lookup s known_urls;
  get = λ sent s. lookup s answers;
  cancelled = λ sent. false;
  known = none;
  parse_time = λ layout s. none;
  to_job = λ p page_url company. some job;
}

abbrev seed : Seed
seed = record { url = home; company = codes "H"; include = none }

abbrev crawler : Crawler
crawler = record { user_agent = codes "JobsScraper/1.0 (x)"; max_pages_per_seed = 40 }

abbrev walked : Walk
walked = record {
  frontier = [];
  queued = posting ∷ home ∷ [];
  visited = home ∷ posting ∷ [];
  found = job ∷ [];
  pages = 2;
  failed = 0;
  sent = 3;
}

crawl_runs : crawl_seed ascii_only no_fractions site crawler seed ≡ crawled walked
unfolding crawl_seed crawl_with fetch_robots parse_robots pick_groups with_groups product_token
    allowed match_string must_compile read_items matches quote_meta is_special replace_stars
    new_robots_rule request_path in_scope crawl_loop start_walk sitemap_pages fetch_page
    Site.unknown wanted names newest_first sort_newest sitemap_walk pick_new
crawl_runs = refl

crawl_seed-once_example : count posting walked.visited ≤ 1
crawl_seed-once_example =
    crawl_seed-once ascii_only no_fractions site crawler seed {s = walked} posting crawl_runs

crawl_seed-Permitted_example :
    (scope : Url) × (robots : Robots) × (site.parse_url seed.url ≡ some scope)
    × (fetch_robots ascii_only site seed scope no_fractions crawler 0 ≡ answered robots)
    × All (IsPermitted ascii_only site scope robots) walked.visited
crawl_seed-Permitted_example =
    crawl_seed-Permitted ascii_only no_fractions site crawler seed {s = walked} crawl_runs

crawl_seed-budget_example :
    (length walked.visited ≡ walked.pages)
    × (walked.pages ≤ crawler.max_pages_per_seed)
    × (walked.failed ≤ walked.pages)
    × All Shallow walked.frontier
    × (walk_more site crawler walked ≡ false)
crawl_seed-budget_example =
    crawl_seed-budget ascii_only no_fractions site crawler seed {s = walked} crawl_runs

abbrev uses : List Use
uses =
    wait_for (codes "a.com")
    ∷ slow (codes "A.com") (pos 30)
    ∷ slow (codes "b.com") (pos 99)
    ∷ slow (codes "a.com") (pos 20)
    ∷ []

slowest_kept :
    delay_of ascii_only (pos 10) (codes "a.com") (use_limiters ascii_only (pos 10) uses []) ≡ 30
unfolding use_limiters use_limiter get_limiter slow_to every
slowest_kept = refl

use_limiters-longest_delay_example :
    delay_of ascii_only (pos 10) (codes "a.com") (use_limiters ascii_only (pos 10) uses [])
    ≡ longest_delay ascii_only (pos 10) (codes "a.com") uses (every (pos 10))
use_limiters-longest_delay_example =
    use_limiters-longest_delay ascii_only (pos 10) uses (codes "a.com")

abbrev outcomes : List (Option Outcome)
outcomes = none ∷ some (crawled walked) ∷ some (refused disallowed) ∷ []

fetch_jobs-all_found_example :
    fetch_jobs outcomes
    ≡ (if ltb 0 (length outcomes) && all_failed outcomes then none else some (all_found outcomes))
fetch_jobs-all_found_example = fetch_jobs-all_found outcomes

-- Two seeds on one host: both compare the limit before either sets it, and the shorter delay stays.
abbrev raced : Racing
raced = record { by_host = (codes "a.com", 20) ∷ []; pending = [] }

race : Reach ascii_only (pos 10) raced
unfolding compare_limit get_limiter every
race =
    later
      (later
        (later (later start (compares (codes "A.com") (pos 30)))
          (compares (codes "a.com") (pos 20)))
        (sets (codes "a.com") 30 ((codes "a.com", 20) ∷ []) [] refl))
      (sets (codes "a.com") 20 [] [] refl)

shorter_stays : delay_of ascii_only (pos 10) (codes "a.com") raced.by_host ≡ 20
unfolding get_limiter
shorter_stays = refl

Reach-least_delay_example :
    every (pos 10) ≤ delay_of ascii_only (pos 10) (codes "a.com") raced.by_host
Reach-least_delay_example = Reach-least_delay ascii_only (pos 10) (codes "a.com") race
