-- ===== src/Crawl/Budget.antt =====
-- The page budget: the walk ends by its own test within it, and counts what it does.
use jobs_scraper.Prelude.{
  ℕ, zero, suc, ◌+◌, ◌≤◌, ◌≡◌, refl, inl, inr, true, false, Bool-cases, Option, none, some, List,
  [], ◌∷◌, ◌++◌, length, length-append, All, All-append, arith,
}
use jobs_scraper.Prelude.Floats.{Floats}
use jobs_scraper.Prelude.Text.{Text, Unicode}
use jobs_scraper.Robots.{Robots}
use jobs_scraper.Crawl.Site.{
  Url, Page, World, Seed, Crawler, wanted, unknown, fetch_page, max_depth,
}
use jobs_scraper.Crawl.Runs.{IsRun-of}
use jobs_scraper.Crawl.Steps.{
  Target, Walk, crawled, pick_new, frontier_of, follows, visit, walk_more, next_round, crawl_loop,
  start_walk, crawl_seed, sitemap_pages,
}

abbrev pub Shallow : Target → Type 0
Shallow t = t.depth ≤ max_depth

-- What holds of the walk between two rounds.
pub record IsCounted (s : Walk) : Type 0 where
  pub counted : length s.visited ≡ s.pages
  pub failed_within : s.failed ≤ s.pages
  pub shallow : All Shallow s.frontier

module _ {Posting : Type 0} (u : Unicode) (w : World Posting) (seed : Seed) (scope : Url)
    (robots : Robots) where
  frontier_of-Shallow :
      (depth : ℕ) (links : List Text) → depth ≤ max_depth → All Shallow (frontier_of depth links)
  frontier_of-Shallow depth [] h = tt
  frontier_of-Shallow depth (l ∷ links) h = (h, frontier_of-Shallow depth links h)

  follows-depth : (depth : ℕ) (ps : List Posting) → follows depth ps ≡ true → depth + 1 ≤ max_depth
  follows-depth depth [] h = ground arith
  follows-depth depth (p ∷ ps) h = absurd (ground arith)

  -- The walk behind a page has counted it.
  visit-IsCounted :
      (depth : ℕ) (page : Option (Text × Page Posting)) (s : Walk)
      → length s.visited ≡ s.pages
      → suc s.failed ≤ s.pages
      → All Shallow s.frontier
      → IsCounted (visit u w seed scope robots depth page s)
  unfolding visit
  visit-IsCounted depth none s v f d = record { counted = v; failed_within = f; shallow = d }
  visit-IsCounted depth (some (page_url, parsed)) s v f d =
      let picked =
        pick_new (λ (l : Text). l) (wanted u w seed scope robots) parsed.links s.queued in
      elim (Bool-cases (follows depth parsed.postings)) [
        | inl on ↦
            rw (on, visit)
              (record {
                counted = v;
                failed_within = omega arith;
                shallow = All-append Shallow s.frontier _ d (
                    frontier_of-Shallow (depth + 1) (unknown u w seed scope s.sent picked.0)
                      (follows-depth depth parsed.postings on));
              })
        | inr leaf ↦
            rw (leaf, visit) (record { counted = v; failed_within = omega arith; shallow = d })
      ]

  visit-pages :
      (depth : ℕ) (page : Option (Text × Page Posting)) (s : Walk)
      → (visit u w seed scope robots depth page s).pages ≡ s.pages
  unfolding visit
  visit-pages depth none s = refl
  visit-pages depth (some (page_url, parsed)) s = ground arith

  next_round-IsCounted :
      (frontier : List Target) (s : Walk)
      → s.frontier ≡ frontier
      → IsCounted s
      → IsCounted (next_round u w seed scope robots frontier s)
  unfolding next_round
  next_round-IsCounted [] s e h = h
  next_round-IsCounted (t ∷ rest) s e h =
      visit-IsCounted t.depth (fetch_page u w seed scope s.sent t.url)
        (record s {
          frontier = rest;
          visited = s.visited ++ t.url ∷ [];
          pages = suc s.pages;
          sent = suc s.sent;
        })
        (omega (arith, h.counted, length-append s.visited (t.url ∷ [])))
        (omega (arith, h.failed_within)) (rw e at h.shallow).1

  next_round-pages :
      (c : Crawler) (frontier : List Target) (s : Walk)
      → s.frontier ≡ frontier
      → walk_more w c s ≡ true
      → (next_round u w seed scope robots frontier s).pages ≡ suc s.pages
  unfolding next_round
  next_round-pages c [] s e h = absurd (ground arith)
  next_round-pages c (t ∷ rest) s e h = visit-pages t.depth _ _

  -- With fuel for the pages that are left, the loop ends because its test fails.
  crawl_loop-ends :
      (c : Crawler) (fuel : ℕ) (s : Walk)
      → s.pages + fuel ≡ c.max_pages_per_seed
      → IsCounted s
      → let r = crawl_loop u w seed scope c robots fuel s in
        IsCounted r × (r.pages ≤ c.max_pages_per_seed) × (walk_more w c r ≡ false)
  unfolding crawl_loop
  crawl_loop-ends c zero s e h = (h, omega arith, ground arith)
  crawl_loop-ends c (suc fuel) s e h = elim (Bool-cases (walk_more w c s)) [
    | inl on ↦
        rw (on, crawl_loop)
          (crawl_loop-ends c fuel (next_round u w seed scope robots s.frontier s)
            (omega (arith, next_round-pages c s.frontier s refl on))
            (next_round-IsCounted s.frontier s refl h))
    | inr stop ↦ rw (stop, crawl_loop) (h, omega arith, stop)
  ]

  start_walk-IsCounted : IsCounted (start_walk u w seed scope robots)
  unfolding start_walk
  start_walk-IsCounted = record {
    counted = refl;
    failed_within = omega arith;
    shallow =
        let (links, queued, sent) = sitemap_pages u w seed scope robots (seed.url ∷ []) 1 in
        All-append Shallow (frontier_of max_depth (unknown u w seed scope sent links)) _
          (frontier_of-Shallow max_depth (unknown u w seed scope sent links) (omega arith))
          (omega arith);
  }

  start_walk-pages : (start_walk u w seed scope robots).pages ≡ 0
  unfolding start_walk
  start_walk-pages = refl

-- A crawl that starts ends by the loop's own test: no page is left, the budget is used up, or the
-- context is cancelled. It has requested as many pages as it counts, at most the budget, has counted
-- no more failures than pages, and nothing left in its frontier lies deeper than the depth limit.
pub crawl_seed-budget :
    {Posting : Type 0} (u : Unicode) (fl : Floats) (w : World Posting) (c : Crawler) (seed : Seed)
    {s : Walk}
    → crawl_seed u fl w c seed ≡ crawled s
    → (length s.visited ≡ s.pages)
      × (s.pages ≤ c.max_pages_per_seed)
      × (s.failed ≤ s.pages)
      × All Shallow s.frontier
      × (walk_more w c s ≡ false)
crawl_seed-budget u fl w c seed {s} h =
    let (scope, robots, run) = IsRun-of u w seed c fl s h in
    let (counted, within, ended) =
      crawl_loop-ends u w seed scope robots c c.max_pages_per_seed
        (start_walk u w seed scope robots) (omega (arith, start_walk-pages u w seed scope robots))
        (start_walk-IsCounted u w seed scope robots) in
    rw run.walked (counted.counted, within, counted.failed_within, counted.shallow, ended)
