-- ===== src/Robots/Groups.antt =====
-- Which groups of a file apply to a crawler.
use jobs_scraper.Prelude.{
  ◌≡◌, ◌∙◌, refl, inl, inr, ◌⊎◌, Bool, true, false, ◌||◌, Option, none, some, List, [], ◌∷◌, ◌++◌,
  append_assoc, append-nil, if◌then◌else◌, keep, if_both, All, All-append, arith,
}
use jobs_scraper.Prelude.Int.{pos}
use jobs_scraper.Prelude.Floats.{Floats}
use jobs_scraper.Prelude.Keys.{◌==◌, nat_eq, list_eq}
use jobs_scraper.Prelude.Text.{Text, Unicode, codes, to_lower, trim_space, cut}
use jobs_scraper.Robots.{
  RobotsGroup, Named, by_agent, by_wildcard, unnamed, names, named_or, pick_from, pick_groups,
  with_groups, Scan, groups_of, add_agent, add_rule, set_delay, add_delay, directive, scan_line,
  scan_lines, start_scan, split_line, open_group, empty_group, parse_robots, allowed, verdict, edit,
}

abbrev pub is_by_agent : Named → Bool
is_by_agent by_agent = true
is_by_agent _ = false

abbrev pub is_by_wildcard : Named → Bool
is_by_wildcard by_wildcard = true
is_by_wildcard _ = false

Named-cases : (n : Named) → (n ≡ by_agent) ⊎ ((n ≡ by_wildcard) ⊎ (n ≡ unnamed))
Named-cases by_agent = inl refl
Named-cases by_wildcard = inr (inl refl)
Named-cases unnamed = inr (inr refl)

pick_from-keep :
    (groups : List RobotsGroup) (agent : Text) (named wildcard : List RobotsGroup)
    → pick_from groups agent named wildcard
      ≡ named_or
          (named ++ keep (λ g. is_by_agent (names g.agents agent)) groups)
          (wildcard ++ keep (λ g. is_by_wildcard (names g.agents agent)) groups)
unfolding pick_from
pick_from-keep [] agent named wildcard = simp append-nil
pick_from-keep (g ∷ groups) agent named wildcard = elim (Named-cases (names g.agents agent)) [
  | inl e ↦ rw e (pick_from-keep groups agent (named ++ g ∷ []) wildcard ∙ simp append_assoc)
  | inr (inl e) ↦ rw e (pick_from-keep groups agent named (wildcard ++ g ∷ []) ∙ simp append_assoc)
  | inr (inr e) ↦ rw e (pick_from-keep groups agent named wildcard)
]

-- The groups that apply are all the groups naming the agent, in their order in the file, and only
-- where there are none all the groups naming `*`.
pub pick_groups-keep :
    (groups : List RobotsGroup) (agent : Text)
    → pick_groups groups agent
      ≡ named_or
          (keep (λ g. is_by_agent (names g.agents agent)) groups)
          (keep (λ g. is_by_wildcard (names g.agents agent)) groups)
unfolding pick_groups
pick_groups-keep groups agent = pick_from-keep groups agent [] []

-- No line of the file addresses the agent, by its name or by `*`.
abbrev Ignores : Text → RobotsGroup → Type 0
Ignores agent g = names g.agents agent ≡ unnamed

abbrev agent_value : Unicode → Text × Option Text → Option Text
agent_value u (key, none) = none
agent_value u (key, some value) =
    if to_lower u (trim_space key) == codes "user-agent"
    then some (to_lower u (trim_space value))
    else none

abbrev IsOther : Text → Option Text → Type 0
IsOther agent none = Unit
IsOther agent (some name) = ((name == codes "*") ≡ false) × ((name == agent) ≡ false)

abbrev pub IsStranger : Unicode → Text → Text → Type 0
IsStranger u agent line = IsOther agent (agent_value u (cut (cut line b'#').0 b':'))

names-snoc :
    (xs : List Text) (name agent : Text)
    → names xs agent ≡ unnamed
    → (name == codes "*") ≡ false
    → (name == agent) ≡ false
    → names (xs ++ name ∷ []) agent ≡ unnamed
unfolding names
names-snoc [] name agent h star same = rw (star, same) refl
names-snoc (x ∷ xs) name agent h star same = ground (arith, names-snoc xs name agent)

abbrev Current : Text → Option RobotsGroup → Type 0
Current agent none = Unit
Current agent (some g) = Ignores agent g

-- Every group of the scan so far ignores the agent.
record Ignored (agent : Text) (s : Scan) : Type 0 where
  before : All (Ignores agent) s.closed
  last : Current agent s.current

All-groups_of :
    (agent : Text) (closed : List RobotsGroup) (current : Option RobotsGroup)
    → All (Ignores agent) closed
    → Current agent current
    → All (Ignores agent) (groups_of closed current)
All-groups_of agent closed none h c = h
All-groups_of agent closed (some g) h c = All-append (Ignores agent) closed (g ∷ []) h (c, tt)

open_group-Ignored : (agent : Text) (s : Scan) → Ignored agent s → Ignored agent (open_group s)
unfolding names
open_group-Ignored agent s h =
    elim s.in_agents
      as (λ b. Ignored agent (
        if b
        then s
        else record s { closed = groups_of s.closed s.current; current = some empty_group })) [
          | true ↦ h
          | false ↦ record {
            before = All-groups_of agent s.closed s.current h.before h.last;
            last = refl;
          }
        ]

edit-Current :
    (agent : Text) (f : RobotsGroup → RobotsGroup)
    → ((g : RobotsGroup) → Ignores agent g → Ignores agent (f g))
    → (o : Option RobotsGroup) → Current agent o
    → Current agent (edit f o)
edit-Current agent f h none c = tt
edit-Current agent f h (some g) c = h g c

add_agent-Ignored :
    (u : Unicode) (agent value : Text) (s : Scan)
    → (to_lower u value == codes "*") ≡ false
    → (to_lower u value == agent) ≡ false
    → Ignored agent s
    → Ignored agent (add_agent u value s)
unfolding add_agent
add_agent-Ignored u agent value s star same h =
    let t = open_group-Ignored agent s h in
    record {
      before = t.before;
      last =
          edit-Current agent _ (λ g k. names-snoc g.agents (to_lower u value) agent k star same) _
            t.last;
    }

add_rule-Ignored :
    (agent : Text) (allow : Bool) (value : Text) (s : Scan)
    → Ignored agent s
    → Ignored agent (add_rule allow value s)
unfolding add_rule
add_rule-Ignored agent allow [] s h = record { before = h.before; last = h.last }
add_rule-Ignored agent allow (c ∷ value) s h = record {
  before = h.before;
  last = edit-Current agent _ (λ g k. k) s.current h.last;
}

module _ (fl : Floats) where
  set_delay-agents : (x : Option fl.Float) (g : RobotsGroup) → (set_delay fl x g).agents ≡ g.agents
  set_delay-agents none g = refl
  set_delay-agents (some x) g = ground arith

  add_delay-Ignored :
      (agent value : Text) (s : Scan) → Ignored agent s → Ignored agent (add_delay fl value s)
  unfolding add_delay
  add_delay-Ignored agent value s h = record {
    before = h.before;
    last =
        edit-Current agent _ (λ g k. rw (set_delay-agents (fl.parse_float value) g) k) s.current
          h.last;
  }

  directive-Ignored :
      (u : Unicode) (agent key value : Text) (s : Scan)
      → IsOther agent (if key == codes "user-agent" then some (to_lower u value) else none)
      → Ignored agent s
      → Ignored agent (directive fl u key value s)
  unfolding directive
  directive-Ignored u agent key value s o h =
      if_both (Ignored agent) (key == codes "user-agent") _ _
        (λ e. let o' = rw e at o in add_agent-Ignored u agent value s o'.0 o'.1 h)
        λ _.
          if_both (Ignored agent) (key == codes "allow" || key == codes "disallow") _ _
            (λ _. add_rule-Ignored agent (key == codes "allow") value s h)
            λ _.
              if_both (Ignored agent) (key == codes "crawl-delay") _ _
                (λ _. add_delay-Ignored agent value s h)
                λ _.
                  if_both (Ignored agent) (key == codes "sitemap") _ _
                    (λ _. record { before = h.before; last = h.last }) (λ _. h)

  scan_line-Ignored :
      (u : Unicode) (agent line : Text) (s : Scan)
      → IsStranger u agent line
      → Ignored agent s
      → Ignored agent (scan_line fl u line s)
  unfolding scan_line
  scan_line-Ignored u agent line s = go (cut (cut line b'#').0 b':')
    where
      go :
          (kv : Text × Option Text)
          → IsOther agent (agent_value u kv)
          → Ignored agent s
          → Ignored agent (split_line fl u kv s)
      go (key, none) o h = h
      go (key, some value) o h =
          directive-Ignored u agent (to_lower u (trim_space key)) (trim_space value) s o h

  scan_lines-Ignored :
      (u : Unicode) (agent : Text) (lines : List Text) (s : Scan)
      → All (IsStranger u agent) lines
      → Ignored agent s
      → Ignored agent (scan_lines fl u lines s)
  unfolding scan_lines
  scan_lines-Ignored u agent [] s o h = h
  scan_lines-Ignored u agent (l ∷ lines) s o h =
      scan_lines-Ignored u agent lines (scan_line fl u l s) o.1
        (scan_line-Ignored u agent l s o.0 h)

keep-none :
    (f : Named → Bool) (agent : Text) (groups : List RobotsGroup)
    → f unnamed ≡ false
    → All (Ignores agent) groups
    → keep (λ g. f (names g.agents agent)) groups ≡ []
keep-none f agent [] e h = refl
keep-none f agent (g ∷ groups) e h = rw (h.0, e) (keep-none f agent groups e h.1)

-- A file none of whose lines addresses the agent, by name or by `*`, leaves it unrestricted: every
-- path may be fetched and no delay is asked for, whatever rules the file has for others.
pub parse_robots-stranger :
    (fl : Floats) (u : Unicode) (lines : List Text) (agent path : Text)
    → All (IsStranger u (to_lower u agent)) lines
    → (allowed (parse_robots fl u lines agent) path ≡ true)
      × ((parse_robots fl u lines agent).crawl_delay ≡ pos 0)
unfolding parse_robots with_groups allowed verdict
parse_robots-stranger fl u lines agent path o =
    let a = to_lower u agent in
    let s = scan_lines fl u lines (start_scan fl) in
    let h = scan_lines-Ignored fl u a lines (start_scan fl) o (record { before = tt; last = tt }) in
    let all = All-groups_of a s.closed s.current h.before h.last in
    rw (pick_groups-keep, keep-none is_by_agent a _ refl all, keep-none is_by_wildcard a _ refl all)
      (refl, refl)
