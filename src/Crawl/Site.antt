-- ===== src/Crawl/Site.antt =====
-- What the crawl of a site knows and asks: URLs, responses, the scope of a seed, and the single
-- requests for robots.txt, a sitemap and a page.
use jobs_scraper.Prelude.{
  ℕ, Bool, true, false, not, ◌&&◌, ◌||◌, Option, none, some, List, [], ◌∷◌, ◌++◌, map, keep, leb,
  ltb, ◌==◌ as nat_beq, if◌then◌else◌,
}
use jobs_scraper.Prelude.Floats.{Floats}
use jobs_scraper.Prelude.Int.{pos}
use jobs_scraper.Prelude.Keys.{◌==◌, nat_eq, list_eq, member}
use jobs_scraper.Prelude.Sort.{sort_newest}
use jobs_scraper.Prelude.Text.{
  Text, Unicode, codes, to_lower, equal_fold, trim_space, trim_suffix, has_prefix, contains, cut,
}
use jobs_scraper.Robots.{Robots, allowed, parse_robots}
use jobs_scraper.Jobs.{Time, Job}

-- The parts of a parsed `url.URL` that the crawl reads.
pub record Url : Type 0 where
  pub scheme : Text
  pub host : Text
  pub path : Text
  pub escaped_path : Text
  pub raw_query : Text

pub record SitemapEntry : Type 0 where
  pub loc : Text
  pub last_mod : Text

pub record SitemapFile : Type 0 where
  pub urls : List SitemapEntry
  pub sitemaps : List SitemapEntry

pub record Page (Posting : Type 0) : Type 0 where
  pub postings : List Posting
  pub links : List Text

-- An answer to a GET. The body stands here once for each reader that the code puts on it: the lines
-- of a scanner, a decoded sitemap, and a parsed page; `none` where that reader fails.
pub record Response (Posting : Type 0) : Type 0 where
  pub status : ℕ
  pub content_type : Text
  pub final : Url
  pub final_text : Text
  pub lines : List Text
  pub sitemap : Option SitemapFile
  pub page : Option (Page Posting)

-- What the crawl does not compute itself. A request is given the number of requests before it, so
-- that a site may answer the same URL differently later; so are the store's known URLs.
pub record World (Posting : Type 0) : Type 0 where
  pub parse_url : Text → Option Url
  pub get : ℕ → Text → Option (Response Posting)
  -- `ctx.Err() != nil` after so many requests.
  pub cancelled : ℕ → Bool
  -- `Known`, if set: those of the URLs that are stored, or an error.
  pub known : Option (ℕ → List Text → Option (List Text))
  -- `time.Parse`
  pub parse_time : Text → Text → Option Time
  -- `posting.toJob(pageURL, company, now)`
  pub to_job : Posting → Text → Text → Option Job

pub record Seed : Type 0 where
  pub url : Text
  pub company : Text
  pub include : Option (Text → Bool)

pub record Crawler : Type 0 where
  pub user_agent : Text
  pub max_pages_per_seed : ℕ

abbrev pub max_depth : ℕ
max_depth = 2

abbrev pub max_sitemaps : ℕ
max_sitemaps = 10

unfoldable pub request_path : Url → Text
request_path x =
    let path = if x.escaped_path == [] then codes "/" else x.escaped_path in
    if x.raw_query == [] then path else path ++ b'?' ∷ x.raw_query

unfoldable pub in_scope : Unicode → Url → Url → Bool
in_scope u scope x =
    let prefix = trim_suffix scope.path b'/' in
    if not (equal_fold u x.host scope.host)
    then false
    else x.path == prefix || has_prefix x.path (prefix ++ b'/' ∷ [])

abbrev includes : Option (Text → Bool) → Text → Bool
includes none link = true
includes (some p) link = p link

unfoldable pub product_token : Unicode → Text → Text
product_token u user_agent = to_lower u (cut (cut user_agent b'/').0 b' ').0

-- `dateLayouts`
abbrev date_layouts : List Text
date_layouts =
    codes "2006-01-02T15:04:05Z07:00"
    ∷ codes "2006-01-02T15:04:05Z0700"
    ∷ codes "2006-01-02T15:04:05"
    ∷ codes "2006-01-02T15:04"
    ∷ codes "2006-01-02"
    ∷ []

unfoldable pub try_layouts : (Text → Text → Option Time) → List Text → Text → Time
try_layouts parse [] s = 0
try_layouts parse (layout ∷ rest) s =
    let later = try_layouts parse rest s in elim (parse layout s) [ none ↦ later | some t ↦ t ]

unfoldable pub parse_date : (Text → Text → Option Time) → Text → Time
unfolding try_layouts
parse_date parse s = try_layouts parse date_layouts (trim_space s)

unfoldable pub newest_first : (Text → Text → Option Time) → List SitemapEntry → List SitemapEntry
newest_first parse entries = sort_newest (λ e. parse_date parse e.last_mod) entries

abbrev pub trim_locs : List SitemapEntry → List SitemapEntry
trim_locs = map {A = SitemapEntry} (λ e. record e { loc = trim_space e.loc })

-- `parseSitemap` behind the decoder.
abbrev pub parse_sitemap : Option SitemapFile → Option SitemapFile
parse_sitemap none = none
parse_sitemap (some f) = some (record { urls = trim_locs f.urls; sitemaps = trim_locs f.sitemaps })

pub data RobotsResult : Type 0 where
  answered : Robots → RobotsResult
  unreachable : RobotsResult

abbrev pub drop_known : Option (List Text) → List Text → List Text
drop_known none links = links
drop_known (some stored) links = keep (λ l. not (member l stored)) links

abbrev pub ask_known : Option (ℕ → List Text → Option (List Text)) → ℕ → List Text → List Text
ask_known none sent links = links
ask_known (some known) sent links = drop_known (known sent links) links

module _ {Posting : Type 0} (u : Unicode) (w : World Posting) (seed : Seed) (scope : Url) where
  -- `wanted`, given the rules of robots.txt.
  unfoldable pub wanted : Robots → Text → Bool
  wanted robots link = elim (w.parse_url link) [
    | none ↦ false
    | some x ↦ in_scope u scope x && (includes seed.include link && allowed robots (request_path x))
  ]

  unfoldable pub unknown : ℕ → List Text → List Text
  unknown sent [] = []
  unknown sent (l ∷ links) = ask_known w.known sent (l ∷ links)

  robots_of : Floats → Crawler → Option (Response Posting) → RobotsResult
  robots_of fl c none = unreachable
  robots_of fl c (some resp) =
      if nat_beq resp.status 200
      then answered (parse_robots fl u resp.lines (product_token u c.user_agent))
      else if leb 400 resp.status && ltb resp.status 500
      then answered (record { rules = []; crawl_delay = pos 0; sitemaps = [] })
      else unreachable

  unfoldable pub fetch_robots : Floats → Crawler → ℕ → RobotsResult
  unfolding robots_of
  fetch_robots fl c sent =
      robots_of fl c
        (w.get sent (scope.scheme ++ (codes "://" ++ (scope.host ++ codes "/robots.txt"))))

  sitemap_of : Option (Response Posting) → Option SitemapFile
  sitemap_of none = none
  sitemap_of (some resp) = if nat_beq resp.status 200 then parse_sitemap resp.sitemap else none

  unfoldable pub fetch_sitemap : ℕ → Text → Option SitemapFile
  unfolding sitemap_of
  fetch_sitemap sent sitemap_url = sitemap_of (w.get sent sitemap_url)

  abbrev landed : Text → Option (Page Posting) → Option (Text × Page Posting)
  landed final none = none
  landed final (some p) = some (final, p)

  page_of : Option (Response Posting) → Option (Text × Page Posting)
  page_of none = none
  page_of (some resp) =
      if not (nat_beq resp.status 200)
      then none
      else if not (contains (to_lower u resp.content_type) (codes "html"))
      then none
      else if not (in_scope u scope resp.final)
      then none
      else landed resp.final_text resp.page

  -- The URL that the page ended up at, and the page; `none` is an error.
  unfoldable pub fetch_page : ℕ → Text → Option (Text × Page Posting)
  unfolding page_of
  fetch_page sent page_url = page_of (w.get sent page_url)
