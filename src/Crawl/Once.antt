-- ===== src/Crawl/Once.antt =====
-- No page of a site is requested twice: what was requested or waits in the frontier is accounted
-- for in the crawl's set of queued URLs.
use jobs_scraper.Prelude.{
  ℕ, zero, suc, ◌+◌, ◌≤◌, ◌≡◌, refl, ap, inl, inr, Bool, Bool-cases, not, ◌&&◌, Option, none, some,
  List, [], ◌∷◌, ◌++◌, map, arith,
}
use jobs_scraper.Prelude.Floats.{Floats}
use jobs_scraper.Prelude.Keys.{
  nat_eq, list_eq, member, count, mark, mark-cons, count-append, count-keep,
}
use jobs_scraper.Prelude.Sort.{count-sort_newest}
use jobs_scraper.Prelude.Text.{Text, Unicode}
use jobs_scraper.Robots.{Robots}
use jobs_scraper.Crawl.Site.{
  Url, SitemapEntry, Page, World, Seed, Crawler, wanted, unknown, drop_known, ask_known, fetch_page,
  newest_first, parse_date, fetch_sitemap, max_sitemaps,
}
use jobs_scraper.Crawl.Runs.{IsRun-of}
use jobs_scraper.Crawl.Steps.{
  Target, Walk, crawled, pick_new, sitemap_walk, sitemap_pages, frontier_of, follows, visit,
  walk_more, next_round, crawl_loop, start_walk, crawl_seed, child_urls, on_host, listed,
}

abbrev locs : List SitemapEntry → List Text
locs = map (λ e. e.loc)

abbrev urls : List Target → List Text
urls = map (λ t. t.url)

-- What the loop over links keeps is new, and is queued by it.
pick_new-count :
    {A : Type 0} (loc : A → Text) (wants : Text → Bool) (as' : List A) (queued : List Text)
    (x : Text)
    → count x (map loc (pick_new loc wants as' queued).0) + mark x queued
      ≤ mark x (pick_new loc wants as' queued).1
unfolding pick_new
pick_new-count loc wants [] queued x = omega arith
pick_new-count loc wants (a ∷ rest) queued x =
    elim (Bool-cases (not (member (loc a) queued) && wants (loc a))) [
      | inl take ↦
          rw (take, pick_new)
            (omega (
              arith,
              pick_new-count loc wants rest (loc a ∷ queued) x,
              mark-cons x (loc a) queued (ground arith),
            ))
      | inr skip ↦ rw (skip, pick_new) (pick_new-count loc wants rest queued x)
    ]

urls-frontier_of : (depth : ℕ) (links : List Text) → urls (frontier_of depth links) ≡ links
urls-frontier_of depth [] = refl
urls-frontier_of depth (l ∷ links) = rw (urls-frontier_of depth links)

map_same : (xs : List Text) → map (λ l. l) xs ≡ xs
map_same [] = refl
map_same (x ∷ xs) = rw (map_same xs)

urls-append : (xs ys : List Target) → urls (xs ++ ys) ≡ urls xs ++ urls ys
urls-append [] ys = refl
urls-append (x ∷ xs) ys = rw (urls-append xs ys)

locs-append : (xs ys : List SitemapEntry) → locs (xs ++ ys) ≡ locs xs ++ locs ys
locs-append [] ys = refl
locs-append (x ∷ xs) ys = rw (locs-append xs ys)

module _ {Posting : Type 0} (u : Unicode) (w : World Posting) (seed : Seed) (scope : Url)
    (x : Text) where
  count-drop_known :
      (stored : Option (List Text)) (links : List Text)
      → count x (drop_known stored links) ≤ count x links
  count-drop_known none links = omega arith
  count-drop_known (some stored) links = count-keep x (λ l. not (member l stored)) links

  count-ask_known :
      (known : Option (ℕ → List Text → Option (List Text))) (sent : ℕ) (links : List Text)
      → count x (ask_known known sent links) ≤ count x links
  count-ask_known none sent links = omega arith
  count-ask_known (some known) sent links = count-drop_known (known sent links) links

  count-unknown :
      (sent : ℕ) (links : List Text) → count x (unknown u w seed scope sent links) ≤ count x links
  unfolding unknown
  count-unknown sent [] = omega arith
  count-unknown sent (l ∷ links) = count-ask_known w.known sent (l ∷ links)

  -- The entries taken off the sitemaps are queued, and are not among what was queued before.
  count-sitemap_walk :
      (robots : Robots) (budget : ℕ) (queue fetched queued : List Text)
      (entries : List SitemapEntry) (sent k : ℕ)
      → count x (locs entries) + k ≤ mark x queued
      → let r = sitemap_walk u w seed scope robots budget queue fetched queued entries sent in
        count x (locs r.0) + k ≤ mark x r.1
  unfolding sitemap_walk
  count-sitemap_walk robots zero queue fetched queued entries sent k h = h
  count-sitemap_walk robots (suc budget) [] fetched queued entries sent k h = h
  count-sitemap_walk robots (suc budget) (url ∷ queue) fetched queued entries sent k h =
      let file = fetch_sitemap u w seed scope sent url in
      let picked = pick_new (λ e. e.loc) (wanted u w seed scope robots) (listed file) queued in
      elim (Bool-cases (w.cancelled sent)) [
        | inl stop ↦ rw (stop, sitemap_walk) h
        | inr on ↦ elim (Bool-cases (member url fetched)) [
          | inl again ↦
              rw (on, again, sitemap_walk)
                (count-sitemap_walk robots (suc budget) queue fetched queued entries sent k h)
          | inr first ↦
              rw (on, first, sitemap_walk)
                (count-sitemap_walk robots budget (queue ++ child_urls u w seed scope file)
                  (url ∷ fetched) picked.1 (entries ++ picked.0) (suc sent) k
                  (rw locs-append (
                    omega (
                      arith,
                      h,
                      count-append x (locs entries) (locs picked.0),
                      pick_new-count (λ (e : SitemapEntry). e.loc) (wanted u w seed scope robots)
                          (listed file) queued x,
                    ))))
        ]
      ]

  -- Every URL requested or waiting is queued, each once.
  abbrev Accounted : Walk → Type 0
  Accounted s = count x s.visited + count x (urls s.frontier) ≤ mark x s.queued

  visit-Accounted :
      (robots : Robots) (depth : ℕ) (page : Option (Text × Page Posting)) (s : Walk)
      → Accounted s
      → Accounted (visit u w seed scope robots depth page s)
  unfolding visit
  visit-Accounted robots depth none s h = h
  visit-Accounted robots depth (some (page_url, parsed)) s h =
      let picked =
        pick_new (λ (l : Text). l) (wanted u w seed scope robots) parsed.links s.queued in
      elim (Bool-cases (follows depth parsed.postings)) [
        | inl on ↦
            rw (on, visit, urls-append, urls-frontier_of)
              (omega (
                arith,
                h,
                count-append x (urls s.frontier) (unknown u w seed scope s.sent picked.0),
                count-unknown s.sent picked.0,
                pick_new-count (λ (l : Text). l) (wanted u w seed scope robots) parsed.links
                    s.queued x,
                ap (count x) (map_same picked.0),
              ))
        | inr leaf ↦ rw (leaf, visit) h
      ]

  next_round-Accounted :
      (robots : Robots) (frontier : List Target) (s : Walk)
      → count x s.visited + count x (urls frontier) ≤ mark x s.queued
      → s.frontier ≡ frontier
      → Accounted (next_round u w seed scope robots frontier s)
  unfolding next_round
  next_round-Accounted robots [] s h e = rw e h
  next_round-Accounted robots (t ∷ rest) s h e =
      visit-Accounted robots t.depth (fetch_page u w seed scope s.sent t.url)
        (record s {
          frontier = rest;
          visited = s.visited ++ t.url ∷ [];
          pages = suc s.pages;
          sent = suc s.sent;
        })
        (omega (arith, h, count-append x s.visited (t.url ∷ [])))

  crawl_loop-Accounted :
      (c : Crawler) (robots : Robots) (fuel : ℕ) (s : Walk)
      → Accounted s
      → Accounted (crawl_loop u w seed scope c robots fuel s)
  unfolding crawl_loop
  crawl_loop-Accounted c robots zero s h = h
  crawl_loop-Accounted c robots (suc fuel) s h = elim (Bool-cases (walk_more w c s)) [
    | inl on ↦
        rw (on, crawl_loop)
          (crawl_loop-Accounted c robots fuel _ (next_round-Accounted robots s.frontier s h refl))
    | inr stop ↦ rw (stop, crawl_loop) h
  ]

  start_walk-Accounted : (robots : Robots) → Accounted (start_walk u w seed scope robots)
  unfolding start_walk sitemap_pages newest_first
  start_walk-Accounted robots =
      let r =
        sitemap_walk u w seed scope robots max_sitemaps (on_host u w seed scope robots.sitemaps) []
          (seed.url ∷ []) [] 1 in
      let sorted = newest_first w.parse_time r.0 in
      let links = unknown u w seed scope r.2 (locs sorted) in
      rw (urls-append, urls-frontier_of)
        (omega (
          arith,
          count-append x links (seed.url ∷ []),
          count-unknown r.2 (locs sorted),
          count-sort_newest (λ (e : SitemapEntry). parse_date w.parse_time e.last_mod) (λ e. e.loc)
              x r.0,
          count-sitemap_walk robots max_sitemaps (on_host u w seed scope robots.sitemaps) []
              (seed.url ∷ []) [] 1 (count x (seed.url ∷ [])) (ground arith),
        ))

-- In a crawl that starts, no page is requested twice: of the sitemaps' pages, the seed's, and those
-- found by links, each URL is requested at most once.
pub crawl_seed-once :
    {Posting : Type 0} (u : Unicode) (fl : Floats) (w : World Posting) (c : Crawler) (seed : Seed)
    {s : Walk} (url : Text)
    → crawl_seed u fl w c seed ≡ crawled s
    → count url s.visited ≤ 1
crawl_seed-once u fl w c seed {s} url h =
    let (scope, robots, run) = IsRun-of u w seed c fl s h in
    let start = start_walk-Accounted u w seed scope url robots in
    let done =
      crawl_loop-Accounted u w seed scope url c robots c.max_pages_per_seed
        (start_walk u w seed scope robots) start in
    rw run.walked (ground (arith, done))
