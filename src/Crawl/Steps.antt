-- ===== src/Crawl/Steps.antt =====
-- The walk over a site: the sitemaps, the frontier of pages, and `crawlSeed` as a whole.
use jobs_scraper.Prelude.{
  ℕ, zero, suc, ◌+◌, Bool, true, false, not, ◌&&◌, Option, none, some, List, [], ◌∷◌, ◌++◌, map,
  keep, length, leb, ltb, if◌then◌else◌,
}
use jobs_scraper.Prelude.Floats.{Floats}
use jobs_scraper.Prelude.Keys.{◌==◌, nat_eq, list_eq, member}
use jobs_scraper.Prelude.Text.{Text, Unicode, equal_fold}
use jobs_scraper.Robots.{Robots, allowed}
use jobs_scraper.Jobs.{Job}
use jobs_scraper.Crawl.Site.{
  Url, SitemapEntry, SitemapFile, Page, World, Seed, Crawler, request_path, wanted, unknown,
  RobotsResult, answered, unreachable, fetch_robots, fetch_page, newest_first, fetch_sitemap,
  max_depth, max_sitemaps,
}

pub record Target : Type 0 where
  pub url : Text
  pub depth : ℕ

-- The variables of the walk: `queued` is the crawl's set, `visited` the page requests so far in
-- their order, and `sent` counts every request.
pub record Walk : Type 0 where
  pub frontier : List Target
  pub queued : List Text
  pub visited : List Text
  pub found : List Job
  pub pages : ℕ
  pub failed : ℕ
  pub sent : ℕ

pub data CrawlError : Type 0 where
  bad_seed robots_unreachable disallowed : CrawlError

pub data Outcome : Type 0 where
  refused : CrawlError → Outcome
  crawled : Walk → Outcome

-- The loop that keeps what is neither queued nor unwanted, and queues it.
unfoldable pub pick_new :
    {A : Type 0} → (A → Text) → (Text → Bool) → List A → List Text → List A × List Text
pick_new loc wants [] queued = ([], queued)
pick_new loc wants (a ∷ rest) queued = elim (not (member (loc a) queued) && wants (loc a)) [
  | true ↦ (
    a ∷ (pick_new loc wants rest (loc a ∷ queued)).0,
    (pick_new loc wants rest (loc a ∷ queued)).1,
  )
  | false ↦ pick_new loc wants rest queued
]

abbrev pub listed : Option SitemapFile → List SitemapEntry
listed none = []
listed (some f) = f.urls

abbrev pub frontier_of : ℕ → List Text → List Target
frontier_of depth = map {B = Target} (λ l. record { url = l; depth = depth })

-- A page with a posting is a job page, and a page at the full depth is a leaf.
abbrev pub follows : {Posting : Type 0} → ℕ → List Posting → Bool
follows depth [] = not (leb max_depth depth)
follows depth (p ∷ ps) = false

-- `len(frontier) > 0 && pages < c.MaxPagesPerSeed && ctx.Err() == nil`
abbrev pub walk_more : {Posting : Type 0} → World Posting → Crawler → Walk → Bool
walk_more w c s =
    not (leb (length s.frontier) 0)
    && (ltb s.pages c.max_pages_per_seed && not (w.cancelled s.sent))

module _ {Posting : Type 0} (u : Unicode) (w : World Posting) (seed : Seed) (scope : Url) where
  same_host_as : Option Url → Bool
  same_host_as none = false
  same_host_as (some x) = equal_fold u x.host scope.host

  unfoldable pub same_host : Text → Bool
  unfolding same_host_as
  same_host link = same_host_as (w.parse_url link)

  -- The children of an index that lie on the host.
  abbrev pub on_host : List Text → List Text
  on_host = keep same_host

  abbrev pub child_urls : Option SitemapFile → List Text
  child_urls none = []
  child_urls (some f) = on_host (map (λ e. e.loc) f.sitemaps)

  -- The loop of `sitemapPages`: `budget` is `maxSitemaps - len(fetched)`. The results are the
  -- entries, the set `queued` and the number of requests.
  unfoldable pub sitemap_walk :
      Robots
      → ℕ
      → List Text
      → List Text
      → List Text
      → List SitemapEntry
      → ℕ
      → List SitemapEntry × List Text × ℕ
  sitemap_walk robots zero queue fetched queued entries sent = (entries, queued, sent)
  sitemap_walk robots (suc budget) [] fetched queued entries sent = (entries, queued, sent)
  sitemap_walk robots (suc budget) (url ∷ queue) fetched queued entries sent =
      let file = fetch_sitemap u w seed scope sent url in
      let picked = pick_new (λ e. e.loc) (wanted u w seed scope robots) (listed file) queued in
      elim (w.cancelled sent) [
        | true ↦ (entries, queued, sent)
        | false ↦ elim (member url fetched) [
          | true ↦ sitemap_walk robots (suc budget) queue fetched queued entries sent
          | false ↦
              sitemap_walk robots budget (queue ++ child_urls file) (url ∷ fetched) picked.1
                (entries ++ picked.0) (suc sent)
        ]
      ]

  -- The links of the sitemaps, newest first, with `queued` and the number of requests.
  unfoldable pub sitemap_pages : Robots → List Text → ℕ → List Text × List Text × ℕ
  sitemap_pages robots queued sent =
      let (entries, queued', sent') =
        sitemap_walk robots max_sitemaps (on_host robots.sitemaps) [] queued [] sent in
      (map (λ e. e.loc) (newest_first w.parse_time entries), queued', sent')

  -- The postings of a page that make a job.
  unfoldable pub jobs_of : Text → List Posting → List Job
  jobs_of page_url [] = []
  jobs_of page_url (p ∷ ps) = elim (w.to_job p page_url seed.company) [
    | none ↦ jobs_of page_url ps
    | some job ↦ job ∷ jobs_of page_url ps
  ]

  -- The rest of a round, behind `fetchPage`.
  unfoldable pub visit : Robots → ℕ → Option (Text × Page Posting) → Walk → Walk
  unfolding jobs_of
  visit robots depth none s = record s { failed = suc s.failed }
  visit robots depth (some (page_url, parsed)) s =
      let t = record s { found = s.found ++ jobs_of page_url parsed.postings } in
      let picked = pick_new (λ l. l) (wanted u w seed scope robots) parsed.links s.queued in
      if follows depth parsed.postings
      then record t {
        queued = picked.1;
        frontier = s.frontier ++ frontier_of (depth + 1) (unknown u w seed scope s.sent picked.0);
      }
      else t

  -- One round on the first target.
  unfoldable pub crawl_round : Robots → Target → List Target → Walk → Walk
  unfolding visit
  crawl_round robots next rest s =
      visit robots next.depth (fetch_page u w seed scope s.sent next.url) (record s {
        frontier = rest;
        visited = s.visited ++ next.url ∷ [];
        pages = suc s.pages;
        sent = suc s.sent;
      })

  unfoldable pub next_round : Robots → List Target → Walk → Walk
  unfolding crawl_round
  next_round robots [] s = s
  next_round robots (t ∷ rest) s = crawl_round robots t rest s

  -- The main loop on fuel.
  unfoldable pub crawl_loop : Crawler → Robots → ℕ → Walk → Walk
  unfolding next_round
  crawl_loop c robots zero s = s
  crawl_loop c robots (suc fuel) s = elim (walk_more w c s) [
    | true ↦ crawl_loop c robots fuel (next_round robots s.frontier s)
    | false ↦ s
  ]

  -- The frontier at the start: the sitemaps' pages, leaves all, and the seed behind them.
  unfoldable pub start_walk : Robots → Walk
  start_walk robots =
      let (links, queued, sent) = sitemap_pages robots (seed.url ∷ []) 1 in
      record {
        frontier =
            frontier_of max_depth (unknown u w seed scope sent links)
            ++ record { url = seed.url; depth = 0 } ∷ [];
        queued = queued;
        visited = [];
        found = [];
        pages = 0;
        failed = 0;
        sent = sent;
      }

  unfoldable pub crawl_with : Crawler → RobotsResult → Outcome
  crawl_with c unreachable = refused robots_unreachable
  crawl_with c (answered robots) =
      if not (allowed robots (request_path scope))
      then refused disallowed
      else crawled (crawl_loop c robots c.max_pages_per_seed (start_walk robots))

module _ {Posting : Type 0} (u : Unicode) (fl : Floats) (w : World Posting) (c : Crawler) where
  abbrev pub crawl_at : Seed → Option Url → Outcome
  crawl_at seed none = refused bad_seed
  crawl_at seed (some scope) =
      if scope.host == []
      then refused bad_seed
      else crawl_with u w seed scope c (fetch_robots u w seed scope fl c 0)

  unfoldable pub crawl_seed : Seed → Outcome
  unfolding crawl_with
  crawl_seed seed = crawl_at seed (w.parse_url seed.url)
