-- ===== src/Crawl/Races.antt =====
-- The limiters of hosts where the seeds' calls of slowTo overlap (hostLimiters in
-- backend/crawler/crawler.go): a call finds the limiter and compares its limit in one step, and sets
-- the limit in a later one.
use jobs_scraper.Prelude.{
  ℕ, ◌≤◌, ◌≡◌, refl, inl, inr, Bool-cases, Option, none, some, List, [], ◌∷◌, ◌++◌, ltb, All, subst,
  if◌then◌else◌, arith,
}
use jobs_scraper.Prelude.Int.{ℤ}
use jobs_scraper.Prelude.Keys.{list_eq, nat_eq, lookup, insert, All-insert, All-lookup}
use jobs_scraper.Prelude.Text.{Text, Unicode, to_lower}
use jobs_scraper.Crawl.Hosts.{Limiters, every, get_found, get_limiter, delay_of}

-- The limiters, and the calls of slowTo that have compared and not yet set: the host and the delay.
pub record Racing : Type 0 where
  pub by_host : Limiters
  pub pending : List (Text × ℕ)

module _ (u : Unicode) (min_delay : ℤ) where
  -- `limit < limiter.Limit()`, which decides that the call will set the limit.
  unfoldable pub compare_limit : Text → ℤ → Racing → Racing
  compare_limit host delay s =
      let got = get_limiter u min_delay host s.by_host in
      record {
        by_host = got.1;
        pending =
            if ltb got.0 (every delay)
            then (to_lower u host, every delay) ∷ s.pending
            else s.pending;
      }

  pub data Step (s : Racing) : Racing → Type 0 where
    waits :
        (host : Text)
        → Step s
            (record { by_host = (get_limiter u min_delay host s.by_host).1; pending = s.pending })
    compares : (host : Text) (delay : ℤ) → Step s (compare_limit host delay s)
    sets :
        (host : Text) (delay : ℕ) (front back : List (Text × ℕ))
        → s.pending ≡ front ++ (host, delay) ∷ back
        → Step s (record { by_host = insert host delay s.by_host; pending = front ++ back })

  pub data Reach : Racing → Type 0 where
    start : Reach (record { by_host = []; pending = [] })
    later : {s t : Racing} → Reach s → Step s t → Reach t

  abbrev IsLeast : Text × ℕ → Type 0
  IsLeast (host, delay) = every min_delay ≤ delay

  abbrev IsSlow : Racing → Type 0
  IsSlow s = All IsLeast s.by_host × All IsLeast s.pending

  get_found-IsLeast :
      (host : Text) (by_host : Limiters) (o : Option ℕ)
      → lookup host by_host ≡ o
      → All IsLeast by_host
      → (every min_delay ≤ (get_found u min_delay host by_host o).0)
        × All IsLeast (get_found u min_delay host by_host o).1
  get_found-IsLeast host by_host none e h =
      (omega arith, All-insert IsLeast host (every min_delay) by_host (omega arith) h)
  get_found-IsLeast host by_host (some delay) e h = (All-lookup IsLeast host by_host h e, h)

  get_limiter-IsLeast :
      (host : Text) (by_host : Limiters)
      → All IsLeast by_host
      → (every min_delay ≤ (get_limiter u min_delay host by_host).0)
        × All IsLeast (get_limiter u min_delay host by_host).1
  unfolding get_limiter
  get_limiter-IsLeast host by_host h =
      get_found-IsLeast (to_lower u host) by_host (lookup (to_lower u host) by_host) refl h

  All-without :
      (e : Text × ℕ) (front back : List (Text × ℕ))
      → All IsLeast (front ++ e ∷ back)
      → IsLeast e × All IsLeast (front ++ back)
  All-without e [] back h = h
  All-without e (x ∷ front) back h =
      let rest = All-without e front back h.1 in (rest.0, (h.0, rest.1))

  Step-IsSlow : {s t : Racing} → Step s t → IsSlow s → IsSlow t
  unfolding compare_limit
  Step-IsSlow {s} (waits host) h = ((get_limiter-IsLeast host s.by_host h.0).1, h.1)
  Step-IsSlow {s} (compares host delay) h =
      let got = get_limiter u min_delay host s.by_host in
      let least = get_limiter-IsLeast host s.by_host h.0 in
      elim (Bool-cases (ltb got.0 (every delay))) [
        | inl slower ↦ rw (slower, compare_limit) (least.1, (ground (arith, least.0), h.1))
        | inr no_slower ↦ rw (no_slower, compare_limit) (least.1, h.1)
      ]
  Step-IsSlow {s} (sets host delay front back e) h =
      let rest = All-without (host, delay) front back (subst (All IsLeast) e h.1) in
      (All-insert IsLeast host delay s.by_host rest.0 h.0, rest.1)

  Reach-IsSlow : {s : Racing} → Reach s → IsSlow s
  Reach-IsSlow start = (tt, tt)
  Reach-IsSlow (later r step) = Step-IsSlow step (Reach-IsSlow r)

-- However the seeds' waits and calls of slowTo interleave, also where one call compares the limit
-- before another sets it, the delay between requests to a host is never below the least delay.
pub Reach-least_delay :
    (u : Unicode) (min_delay : ℤ) {s : Racing} (host : Text)
    → Reach u min_delay s
    → every min_delay ≤ delay_of u min_delay host s.by_host
Reach-least_delay u min_delay {s} host r =
    (get_limiter-IsLeast u min_delay host s.by_host (Reach-IsSlow u min_delay r).0).0
