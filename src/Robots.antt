-- ===== src/Robots.antt =====
-- robots.txt (backend/crawler/robots.go): the rules of a file, which of its groups apply to a
-- crawler, and whether they let a path be fetched.
pub mod Glob
pub mod Rules
pub mod Groups
mod Tests
use jobs_scraper.Prelude.{
  ℕ, zero, suc, ◌+◌, ◌≡◌, Bool, true, false, not, ◌&&◌, ◌||◌, Option, none, some, List, [], ◌∷◌,
  ◌++◌, ltb, if◌then◌else◌,
}
use jobs_scraper.Prelude.Int.{ℤ, pos, negsuc, ltb_ℤ, eqb_ℤ, max_ℤ}
use jobs_scraper.Prelude.Floats.{Floats}
use jobs_scraper.Prelude.Keys.{◌==◌, nat_eq, list_eq}
use jobs_scraper.Prelude.Regexp.{backslash, quote_meta, match_string}
use jobs_scraper.Prelude.Text.{
  Text, Unicode, codes, to_lower, trim_space, trim_suffix, ends_with, cut, byte_len,
}

pub record RobotsRule : Type 0 where
  pub allow : Bool
  pub length : ℕ
  pub pattern : Text

pub record RobotsGroup : Type 0 where
  pub agents : List Text
  pub rules : List RobotsRule
  pub crawl_delay : ℤ

pub record Robots : Type 0 where
  pub rules : List RobotsRule
  pub crawl_delay : ℤ
  pub sitemaps : List Text

-- `strings.ReplaceAll(s, `\*`, ".*")`
unfoldable pub replace_stars : Text → Text
replace_stars [] = []
replace_stars (c ∷ []) = c ∷ []
replace_stars (c ∷ d ∷ s) =
    let after = replace_stars s in
    let next = replace_stars (d ∷ s) in
    if c == backslash && d == b'*' then b'.' ∷ b'*' ∷ after else c ∷ next

unfoldable pub new_robots_rule : Bool → Text → RobotsRule
unfolding replace_stars quote_meta
new_robots_rule allow path =
    let anchored = ends_with path b'$' in
    let quoted = quote_meta (trim_suffix path b'$') in
    let pattern = b'^' ∷ replace_stars quoted in
    record {
      allow = allow;
      length = byte_len path;
      pattern = if anchored then pattern ++ b'$' ∷ [] else pattern;
    }

-- The loop of `allowed`; `best` starts at -1.
unfoldable pub verdict : List RobotsRule → Text → ℤ → Bool → Bool
verdict [] path best allow = allow
verdict (r ∷ rules) path best allow =
    let taken =
      match_string r.pattern path
      && (ltb_ℤ best (pos r.length) || (eqb_ℤ (pos r.length) best && r.allow)) in
    verdict rules path (if taken then pos r.length else best) (if taken then r.allow else allow)

unfoldable pub allowed : Robots → Text → Bool
unfolding verdict
allowed r path = verdict r.rules path (negsuc 0) true

-- What the inner loop of `pickGroups` finds in a group's agents.
pub data Named : Type 0 where
  by_agent by_wildcard unnamed : Named

unfoldable pub names : List Text → Text → Named
names [] agent = unnamed
names (name ∷ rest) agent =
    let later = names rest agent in
    if name == codes "*" then by_wildcard else if name == agent then by_agent else later

abbrev add_named : Named → RobotsGroup → List RobotsGroup → List RobotsGroup
add_named by_agent g named = named ++ g ∷ []
add_named _ g named = named

abbrev add_wildcard : Named → RobotsGroup → List RobotsGroup → List RobotsGroup
add_wildcard by_wildcard g wildcard = wildcard ++ g ∷ []
add_wildcard _ g wildcard = wildcard

abbrev named_or : List RobotsGroup → List RobotsGroup → List RobotsGroup
named_or [] wildcard = wildcard
named_or (g ∷ named) wildcard = g ∷ named

pick_from : List RobotsGroup → Text → List RobotsGroup → List RobotsGroup → List RobotsGroup
pick_from [] agent named wildcard = named_or named wildcard
pick_from (g ∷ groups) agent named wildcard =
    let n = names g.agents agent in
    pick_from groups agent (add_named n g named) (add_wildcard n g wildcard)

unfoldable pub pick_groups : List RobotsGroup → Text → List RobotsGroup
unfolding pick_from
pick_groups groups agent = pick_from groups agent [] []

unfoldable pub with_groups : Robots → List RobotsGroup → Robots
with_groups r [] = r
with_groups r (g ∷ groups) =
    with_groups
      (record r { rules = r.rules ++ g.rules; crawl_delay = max_ℤ r.crawl_delay g.crawl_delay })
      groups

-- The variables of `parseRobots`. `current` is the last of the source's groups, through which the
-- loop writes; the groups before it are in `closed`.
pub record Scan : Type 0 where
  pub closed : List RobotsGroup
  pub current : Option RobotsGroup
  pub in_agents : Bool
  pub sitemaps : List Text

abbrev pub empty_group : RobotsGroup
empty_group = record { agents = []; rules = []; crawl_delay = pos 0 }

abbrev pub groups_of : List RobotsGroup → Option RobotsGroup → List RobotsGroup
groups_of closed none = closed
groups_of closed (some g) = closed ++ g ∷ []

-- `current = &robotsGroup{}` where the line opens a group.
abbrev open_group : Scan → Scan
open_group s =
    if s.in_agents
    then s
    else record s { closed = groups_of s.closed s.current; current = some empty_group }

abbrev edit {ℓ} : {A : Type ℓ} → (A → A) → Option A → Option A
edit f none = none
edit f (some a) = some (f a)

add_agent : Unicode → Text → Scan → Scan
add_agent u value s =
    let t = open_group s in
    record t {
      current = edit (λ g. record g { agents = g.agents ++ to_lower u value ∷ [] }) t.current;
      in_agents = true;
    }

add_rule : Bool → Text → Scan → Scan
unfolding new_robots_rule
add_rule allow [] s = record s { in_agents = false }
add_rule allow (c ∷ value) s = record s {
  current =
      edit (λ g. record g { rules = g.rules ++ new_robots_rule allow (c ∷ value) ∷ [] }) s.current;
  in_agents = false;
}

module _ (fl : Floats) where
  abbrev set_delay : Option fl.Float → RobotsGroup → RobotsGroup
  set_delay none g = g
  set_delay (some x) g = if fl.is_positive x then record g { crawl_delay = fl.seconds x } else g

  add_delay : Text → Scan → Scan
  add_delay value s = record s {
    current = edit (set_delay (fl.parse_float value)) s.current;
    in_agents = false;
  }

  -- The `switch` on the key.
  directive : Unicode → Text → Text → Scan → Scan
  unfolding add_agent add_rule add_delay
  directive u key value s =
      if key == codes "user-agent"
      then add_agent u value s
      else if key == codes "allow" || key == codes "disallow"
      then add_rule (key == codes "allow") value s
      else if key == codes "crawl-delay"
      then add_delay value s
      else if key == codes "sitemap"
      then record s { sitemaps = s.sitemaps ++ value ∷ [] }
      else s

  abbrev split_line : Unicode → Text × Option Text → Scan → Scan
  split_line u (key, none) s = s
  split_line u (key, some value) s = directive u (to_lower u (trim_space key)) (trim_space value) s

  unfoldable pub scan_line : Unicode → Text → Scan → Scan
  unfolding directive
  scan_line u text s = split_line u (cut (cut text b'#').0 b':') s

  pub scan_lines : Unicode → List Text → Scan → Scan
  unfolding scan_line
  scan_lines u [] s = s
  scan_lines u (l ∷ lines) s = scan_lines u lines (scan_line u l s)

  abbrev pub start_scan : Scan
  start_scan = record { closed = []; current = none; in_agents = false; sitemaps = [] }

  -- `lines` are what the scanner reads off the response.
  unfoldable pub parse_robots : Unicode → List Text → Text → Robots
  unfolding scan_lines
  parse_robots u lines agent =
      let s = scan_lines u lines start_scan in
      with_groups (record { rules = []; crawl_delay = pos 0; sitemaps = s.sitemaps })
        (pick_groups (groups_of s.closed s.current) (to_lower u agent))
