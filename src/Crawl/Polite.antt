-- ===== src/Crawl/Polite.antt =====
-- The URLs that a crawl asks for as pages lie in the seed's scope and are allowed by robots.txt.
use jobs_scraper.Prelude.{
  ℕ, zero, suc, ◌+◌, ◌≡◌, ◌⊎◌, refl, sym, ap, subst, Option-cases, inl, inr, true, Bool-cases, not,
  ◌&&◌, Option, none, some, List, [], ◌∷◌, ◌++◌, map, All, All-append, All-keep, arith,
}
use jobs_scraper.Prelude.Floats.{Floats}
use jobs_scraper.Prelude.Keys.{nat_eq, list_eq, member, eq_self, list_beq_iff}
use jobs_scraper.Prelude.Sort.{All-sort_newest}
use jobs_scraper.Prelude.Text.{
  Text, Unicode, cut_prefix, has_prefix, is_some, trim_suffix, folded, equal_fold,
}
use jobs_scraper.Robots.{Robots, allowed}
use jobs_scraper.Crawl.Site.{
  Url, SitemapEntry, Page, World, Seed, Crawler, wanted, unknown, drop_known, ask_known,
  request_path, in_scope, fetch_robots, answered, fetch_page, newest_first, parse_date,
  fetch_sitemap, max_sitemaps, max_depth,
}
use jobs_scraper.Crawl.Runs.{IsRun-of}
use jobs_scraper.Crawl.Steps.{
  Target, Walk, crawled, pick_new, sitemap_walk, sitemap_pages, frontier_of, follows, visit,
  walk_more, next_round, crawl_loop, start_walk, crawl_seed, child_urls, on_host, listed,
}

-- A path without its final slash, or with it back in place.
trim_suffix-cases : (s : Text) (x : ℕ) → (trim_suffix s x ≡ s) ⊎ (s ≡ trim_suffix s x ++ x ∷ [])
trim_suffix-cases [] x = inl refl
trim_suffix-cases (c ∷ []) x = ground arith
trim_suffix-cases (c ∷ d ∷ s) x = elim (trim_suffix-cases (d ∷ s) x) [
  | inl e ↦ inl (ap (λ t. c ∷ t) e)
  | inr e ↦ inr (ap (λ t. c ∷ t) e)
]

cut_prefix_whole : (s : Text) → cut_prefix s s ≡ some []
cut_prefix_whole [] = refl
cut_prefix_whole (c ∷ s) = ground (arith, cut_prefix_whole s)

equal_fold_refl : (u : Unicode) (s : Text) → equal_fold u s s ≡ true
equal_fold_refl u s = eq_self (folded u s)

-- The seed lies in its own scope.
pub in_scope_self : (u : Unicode) (scope : Url) → in_scope u scope scope ≡ true
unfolding in_scope
in_scope_self u scope =
    let folded = (equal_fold_refl u scope.host) in
    elim (trim_suffix-cases scope.path b'/') [
      | inl e ↦
          let same = (list_beq_iff scope.path (trim_suffix scope.path b'/')).1 (sym e) in
          rw folded (ground (arith, same))
      | inr e ↦
          let front : has_prefix scope.path (trim_suffix scope.path b'/' ++ b'/' ∷ []) ≡ true =
            ap is_some
              (subst (λ p. cut_prefix scope.path p ≡ some []) e (cut_prefix_whole scope.path)) in
          rw folded (ground (arith, front))
    ]

-- A URL that the seed's rules let the crawl request.
pub record IsPermitted {Posting : Type 0} (u : Unicode) (w : World Posting) (scope : Url)
    (robots : Robots) (url : Text) : Type 0 where
  pub parts : Url
  pub parsed : w.parse_url url ≡ some parts
  pub inside : in_scope u scope parts ≡ true
  pub allowed_by_robots : allowed robots (request_path parts) ≡ true

module _ {Posting : Type 0} (u : Unicode) (w : World Posting) (seed : Seed) (scope : Url)
    (robots : Robots) where
  abbrev Permitted : Text → Type 0
  Permitted = IsPermitted u w scope robots

  wanted-Permitted : (link : Text) → wanted u w seed scope robots link ≡ true → Permitted link
  unfolding wanted
  wanted-Permitted link h = elim (Option-cases (w.parse_url link)) [
    | inl e ↦ absurd (ground arith)
    | inr (x, e) ↦ record {
      parts = x;
      parsed = e;
      inside = ground arith;
      allowed_by_robots = ground arith;
    }
  ]

  pick_new-Permitted :
      {A : Type 0} (loc : A → Text) (as' : List A) (queued : List Text)
      → All (λ a. Permitted (loc a)) (pick_new loc (wanted u w seed scope robots) as' queued).0
  unfolding pick_new
  pick_new-Permitted loc [] queued = tt
  pick_new-Permitted loc (a ∷ rest) queued =
      elim (Bool-cases (not (member (loc a) queued) && wanted u w seed scope robots (loc a))) [
        | inl take ↦
            rw (take, pick_new)
              (
                wanted-Permitted (loc a) (ground arith),
                pick_new-Permitted loc rest (loc a ∷ queued),
              )
        | inr skip ↦ rw (skip, pick_new) (pick_new-Permitted loc rest queued)
      ]

  drop_known-Permitted :
      (stored : Option (List Text)) (links : List Text)
      → All Permitted links
      → All Permitted (drop_known stored links)
  drop_known-Permitted none links h = h
  drop_known-Permitted (some stored) links h =
      All-keep Permitted (λ l. not (member l stored)) links h

  unknown-Permitted :
      (sent : ℕ) (links : List Text)
      → All Permitted links
      → All Permitted (unknown u w seed scope sent links)
  unfolding unknown
  unknown-Permitted sent [] h = h
  unknown-Permitted sent (l ∷ links) h = go w.known
    where
      go :
          (known : Option (ℕ → List Text → Option (List Text)))
          → All Permitted (ask_known known sent (l ∷ links))
      go none = h
      go (some known) = drop_known-Permitted (known sent (l ∷ links)) (l ∷ links) h

  All-map :
      {A : Type 0} (f : A → Text) (as' : List A)
      → All (λ a. Permitted (f a)) as'
      → All Permitted (map f as')
  All-map f [] h = tt
  All-map f (a ∷ as') h = (h.0, All-map f as' h.1)

  sitemap_walk-Permitted :
      (budget : ℕ) (queue fetched queued : List Text) (entries : List SitemapEntry) (sent : ℕ)
      → All (λ e. Permitted e.loc) entries
      → All
          (λ e. Permitted e.loc)
          (sitemap_walk u w seed scope robots budget queue fetched queued entries sent).0
  unfolding sitemap_walk
  sitemap_walk-Permitted zero queue fetched queued entries sent h = h
  sitemap_walk-Permitted (suc budget) [] fetched queued entries sent h = h
  sitemap_walk-Permitted (suc budget) (url ∷ queue) fetched queued entries sent h =
      let file = fetch_sitemap u w seed scope sent url in
      let picked = pick_new (λ e. e.loc) (wanted u w seed scope robots) (listed file) queued in
      elim (Bool-cases (w.cancelled sent)) [
        | inl stop ↦ rw (stop, sitemap_walk) h
        | inr on ↦ elim (Bool-cases (member url fetched)) [
          | inl again ↦
              rw (on, again, sitemap_walk)
                (sitemap_walk-Permitted (suc budget) queue fetched queued entries sent h)
          | inr first ↦
              rw (on, first, sitemap_walk)
                (sitemap_walk-Permitted budget (queue ++ child_urls u w seed scope file)
                  (url ∷ fetched) picked.1 (entries ++ picked.0) (suc sent)
                  (All-append (λ e. Permitted e.loc) entries picked.0 h
                    (pick_new-Permitted (λ (e : SitemapEntry). e.loc) (listed file) queued)))
        ]
      ]

  abbrev IsPolite : Walk → Type 0
  IsPolite s = All (λ t. Permitted t.url) s.frontier × All Permitted s.visited

  frontier_of-Permitted :
      (depth : ℕ) (links : List Text)
      → All Permitted links
      → All (λ t. Permitted t.url) (frontier_of depth links)
  frontier_of-Permitted depth [] h = tt
  frontier_of-Permitted depth (l ∷ links) h = (h.0, frontier_of-Permitted depth links h.1)

  visit-IsPolite :
      (depth : ℕ) (page : Option (Text × Page Posting)) (s : Walk)
      → IsPolite s
      → IsPolite (visit u w seed scope robots depth page s)
  unfolding visit
  visit-IsPolite depth none s h = h
  visit-IsPolite depth (some (page_url, parsed)) s h =
      let picked =
        pick_new (λ (l : Text). l) (wanted u w seed scope robots) parsed.links s.queued in
      elim (Bool-cases (follows depth parsed.postings)) [
        | inl on ↦
            rw (on, visit)
              (
                All-append (λ t. Permitted t.url) s.frontier _ h.0
                    (frontier_of-Permitted (depth + 1) (unknown u w seed scope s.sent picked.0) (
                      unknown-Permitted s.sent picked.0
                        (pick_new-Permitted (λ (l : Text). l) parsed.links s.queued))),
                h.1,
              )
        | inr leaf ↦ rw (leaf, visit) h
      ]

  next_round-IsPolite :
      (frontier : List Target) (s : Walk)
      → All (λ t. Permitted t.url) frontier
      → s.frontier ≡ frontier
      → All Permitted s.visited
      → IsPolite (next_round u w seed scope robots frontier s)
  unfolding next_round
  next_round-IsPolite [] s h e v = (rw e h, v)
  next_round-IsPolite (t ∷ rest) s h e v =
      visit-IsPolite t.depth (fetch_page u w seed scope s.sent t.url)
        (record s {
          frontier = rest;
          visited = s.visited ++ t.url ∷ [];
          pages = suc s.pages;
          sent = suc s.sent;
        })
        (h.1, All-append Permitted s.visited (t.url ∷ []) v (h.0, tt))

  crawl_loop-IsPolite :
      (c : Crawler) (fuel : ℕ) (s : Walk)
      → IsPolite s
      → IsPolite (crawl_loop u w seed scope c robots fuel s)
  unfolding crawl_loop
  crawl_loop-IsPolite c zero s h = h
  crawl_loop-IsPolite c (suc fuel) s h = elim (Bool-cases (walk_more w c s)) [
    | inl on ↦
        rw (on, crawl_loop)
          (crawl_loop-IsPolite c fuel _ (next_round-IsPolite s.frontier s h.0 refl h.1))
    | inr stop ↦ rw (stop, crawl_loop) h
  ]

  start_walk-IsPolite : Permitted seed.url → IsPolite (start_walk u w seed scope robots)
  unfolding start_walk sitemap_pages newest_first
  start_walk-IsPolite h =
      let r =
        sitemap_walk u w seed scope robots max_sitemaps (on_host u w seed scope robots.sitemaps) []
          (seed.url ∷ []) [] 1 in
      let sorted = newest_first w.parse_time r.0 in
      (
        All-append (λ t. Permitted t.url) _ _
            (frontier_of-Permitted max_depth _ (
              unknown-Permitted r.2 _ (
                All-map (λ e. e.loc) sorted
                  (All-sort_newest (λ e. parse_date w.parse_time e.last_mod) (λ e. Permitted e.loc)
                    r.0 (sitemap_walk-Permitted max_sitemaps _ [] (seed.url ∷ []) [] 1 tt)))))
            (h, tt),
        tt,
      )

-- In a crawl that starts, every URL that its loop asks the client for as a page parses, lies under the
-- seed's path on its host, and is allowed by the robots.txt that the crawl read there. The requests
-- by which the client follows a redirect are not among these, nor are those for robots.txt and the
-- sitemaps.
pub crawl_seed-Permitted :
    {Posting : Type 0} (u : Unicode) (fl : Floats) (w : World Posting) (c : Crawler) (seed : Seed)
    {s : Walk}
    → crawl_seed u fl w c seed ≡ crawled s
    → (scope : Url) × (robots : Robots) × (w.parse_url seed.url ≡ some scope)
      × (fetch_robots u w seed scope fl c 0 ≡ answered robots)
      × All (IsPermitted u w scope robots) s.visited
crawl_seed-Permitted u fl w c seed {s} h =
    let (scope, robots, run) = IsRun-of u w seed c fl s h in
    let home : IsPermitted u w scope robots seed.url = record {
      parts = scope;
      parsed = run.parsed;
      inside = in_scope_self u scope;
      allowed_by_robots = run.open_to_us;
    } in
    let start = start_walk-IsPolite u w seed scope robots home in
    let done =
      crawl_loop-IsPolite u w seed scope robots c c.max_pages_per_seed
        (start_walk u w seed scope robots) start in
    (
      scope,
      robots,
      run.parsed,
      run.rules,
      subst (λ t. All (IsPermitted u w scope robots) t.visited) (sym run.walked) done.1,
    )
