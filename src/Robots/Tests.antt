-- ===== src/Robots/Tests.antt =====
-- The robots.txt theorems at concrete files and paths.
use jobs_scraper.Prelude.{ℕ, ◌*◌, ◌≡◌, ◌↔◌, refl, true, false, List, [], ◌∷◌, leb, ltb}
use jobs_scraper.Prelude.Int.{pos}
use jobs_scraper.Prelude.Floats.{Floats}
use jobs_scraper.Prelude.Regexp.{
  quote_meta, is_special, match_string, must_compile, read_items, matches,
}
use jobs_scraper.Prelude.Text.{Text, codes, ascii_only, read_digits}
use jobs_scraper.Robots.{
  RobotsGroup, Robots, replace_stars, new_robots_rule, allowed, names, with_groups, pick_groups,
  parse_robots,
}
use jobs_scraper.Robots.Glob.{FitsPath, new_robots_rule-FitsPath}
use jobs_scraper.Robots.Rules.{longest, allowed-longest}
use jobs_scraper.Robots.Groups.{parse_robots-stranger}

-- Numbers of seconds with no fraction.
abbrev whole : Floats
whole = record {
  Float = ℕ;
  parse_float = read_digits 0;
  is_positive = ltb 0;
  seconds = λ n. pos (n * 1000000000);
}

abbrev lines : List Text
lines =
    codes "User-agent: *"
    ∷ codes "Disallow: /"
    ∷ codes ""
    ∷ codes "User-agent: JobsScraper # us"
    ∷ codes "Disallow: /private"
    ∷ codes "Allow: /private/jobs*"
    ∷ codes "Crawl-delay: 3"
    ∷ codes "Sitemap: https://a.b/s.xml"
    ∷ []

abbrev ours : Robots
ours = parse_robots whole ascii_only lines (codes "jobsscraper")

parsed :
    (allowed ours (codes "/private/x") ≡ false)
    × (allowed ours (codes "/private/jobs/1") ≡ true)
    × (allowed ours (codes "/other") ≡ true)
    × (ours.crawl_delay ≡ pos 3000000000)
unfolding parse_robots pick_groups with_groups allowed new_robots_rule replace_stars quote_meta
    is_special match_string must_compile read_items matches names read_digits
parsed = (refl, refl, refl, refl)

abbrev fish : Text
fish = codes "/fish*.php$"

quoted : (new_robots_rule false (codes "/a.b*c$")).pattern ≡ codes "^/a\\.b.*c$"
unfolding new_robots_rule quote_meta is_special replace_stars
quoted = refl

new_robots_rule-FitsPath_example :
    (match_string (new_robots_rule true fish).pattern (codes "/fish/a.php") ≡ true)
    ↔ FitsPath fish (codes "/fish/a.php")
new_robots_rule-FitsPath_example = new_robots_rule-FitsPath true fish (codes "/fish/a.php")

abbrev two_rules : Robots
two_rules = record {
  rules = new_robots_rule false (codes "/p") ∷ new_robots_rule true (codes "/p/a$") ∷ [];
  crawl_delay = pos 0;
  sitemaps = [];
}

allowed-longest_example :
    allowed two_rules (codes "/p/a")
    ≡ leb
        (longest false two_rules.rules (codes "/p/a"))
        (longest true two_rules.rules (codes "/p/a"))
allowed-longest_example = allowed-longest two_rules (codes "/p/a")

abbrev star_group : RobotsGroup
star_group = record { agents = codes "*" ∷ []; rules = []; crawl_delay = pos 5 }

abbrev our_group : RobotsGroup
our_group = record {
  agents = codes "x" ∷ codes "jobsscraper" ∷ [];
  rules = [];
  crawl_delay = pos 0;
}

abbrev others : List Text
others = codes "User-agent: Googlebot" ∷ codes "Disallow: /" ∷ codes "Crawl-delay: 9" ∷ []

parse_robots-stranger_example :
    (allowed (parse_robots whole ascii_only others (codes "JobsScraper")) (codes "/jobs") ≡ true)
    × ((parse_robots whole ascii_only others (codes "JobsScraper")).crawl_delay ≡ pos 0)
parse_robots-stranger_example =
    parse_robots-stranger whole ascii_only others (codes "JobsScraper") (codes "/jobs")
      ((refl, refl), (tt, (tt, tt)))
