-- ===== src/Crawl/Runs.antt =====
-- What a crawl that starts has found: the seed's URL, the rules of its host, and leave to fetch it.
use jobs_scraper.Prelude.{◌≡◌, refl, inl, inr, true, Bool-cases, Option, none, some, [], arith}
use jobs_scraper.Prelude.Floats.{Floats}
use jobs_scraper.Prelude.Keys.{◌==◌, nat_eq, list_eq}
use jobs_scraper.Prelude.Text.{Unicode}
use jobs_scraper.Robots.{Robots, allowed}
use jobs_scraper.Crawl.Site.{
  Url, World, Seed, Crawler, RobotsResult, answered, unreachable, request_path, fetch_robots,
}
use jobs_scraper.Crawl.Steps.{
  Walk, crawled, crawl_loop, start_walk, crawl_with, crawl_at, crawl_seed,
}

module _ {Posting : Type 0} (u : Unicode) (w : World Posting) (seed : Seed) (c : Crawler)
    (fl : Floats) where
  pub record IsRun (scope : Url) (robots : Robots) (s : Walk) : Type 0 where
    pub parsed : w.parse_url seed.url ≡ some scope
    pub rules : fetch_robots u w seed scope fl c 0 ≡ answered robots
    pub open_to_us : allowed robots (request_path scope) ≡ true
    pub walked :
        s
        ≡ crawl_loop u w seed scope c robots c.max_pages_per_seed (start_walk u w seed scope robots)

  with_robots :
      (scope : Url) (r : RobotsResult) (s : Walk)
      → w.parse_url seed.url ≡ some scope
      → fetch_robots u w seed scope fl c 0 ≡ r
      → crawl_with u w seed scope c r ≡ crawled s
      → (robots : Robots) × IsRun scope robots s
  unfolding crawl_with
  with_robots scope unreachable s p q h = absurd (ground arith)
  with_robots scope (answered robots) s p q h =
      elim (Bool-cases (allowed robots (request_path scope))) [
        | inl yes' ↦
            (robots, record { parsed = p; rules = q; open_to_us = yes'; walked = ground arith })
        | inr no' ↦ absurd (ground arith)
      ]

  at_scope :
      (o : Option Url) (s : Walk)
      → w.parse_url seed.url ≡ o
      → crawl_at u fl w c seed o ≡ crawled s
      → (scope : Url) × (robots : Robots) × IsRun scope robots s
  at_scope none s p h = absurd (ground arith)
  at_scope (some scope) s p h = elim (Bool-cases (scope.host == [])) [
    | inl bare ↦ absurd (ground arith)
    | inr host ↦
        let (robots, run) =
          with_robots scope (fetch_robots u w seed scope fl c 0) s p refl (rw host at h) in
        (scope, robots, run)
  ]

  pub IsRun-of :
      (s : Walk)
      → crawl_seed u fl w c seed ≡ crawled s
      → (scope : Url) × (robots : Robots) × IsRun scope robots s
  unfolding crawl_seed
  IsRun-of s h = at_scope (w.parse_url seed.url) s refl h
