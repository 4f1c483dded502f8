-- ===== src/Crawl/Hosts.antt =====
-- The delays between requests to a host, shared by the seeds on it (hostLimiters in
-- backend/crawler/crawler.go). A limiter is its delay in nanoseconds, where 0 stands for no limit.
use jobs_scraper.Prelude.{
  ℕ, ◌≡◌, ◌∙◌, refl, sym, ap, subst, inl, inr, Bool, true, false, Bool-cases, Option, none, some,
  List, [], ◌∷◌, ltb, max, if◌then◌else◌, arith,
}
use jobs_scraper.Prelude.Int.{ℤ, pos, negsuc}
use jobs_scraper.Prelude.Keys.{◌==◌, nat_eq, list_eq, list_beq_iff, lookup, insert, lookup-insert}
use jobs_scraper.Prelude.Text.{Text, Unicode, to_lower}

abbrev pub Limiters : Type 0
Limiters = List (Text × ℕ)

unfoldable pub every : ℤ → ℕ
every (pos n) = n
every (negsuc n) = 0

-- Uses of the limiters by the seeds, each of which ends before the next begins.
pub data Use : Type 0 where
  wait_for : Text → Use
  slow : Text → ℤ → Use

module _ (u : Unicode) (min_delay : ℤ) where
  abbrev pub get_found : Text → Limiters → Option ℕ → ℕ × Limiters
  get_found host by_host (some delay) = (delay, by_host)
  get_found host by_host none = (every min_delay, insert host (every min_delay) by_host)

  -- `get`: the host's limiter, made at its first use.
  unfoldable pub get_limiter : Text → Limiters → ℕ × Limiters
  get_limiter host by_host = get_found (to_lower u host) by_host (lookup (to_lower u host) by_host)

  -- `slowTo`. A limit is lower where its delay is longer.
  unfoldable pub slow_to : Text → ℤ → Limiters → Limiters
  slow_to host delay by_host =
      let got = get_limiter host by_host in
      if ltb got.0 (every delay) then insert (to_lower u host) (every delay) got.1 else got.1

  unfoldable pub use_limiter : Use → Limiters → Limiters
  use_limiter (wait_for host) by_host = (get_limiter host by_host).1
  use_limiter (slow host delay) by_host = slow_to host delay by_host

  unfoldable pub use_limiters : List Use → Limiters → Limiters
  use_limiters [] by_host = by_host
  use_limiters (x ∷ uses) by_host = use_limiters uses (use_limiter x by_host)

  -- The delay that the next request to a host waits for.
  abbrev pub delay_of : Text → Limiters → ℕ
  delay_of host by_host = (get_limiter host by_host).0

  -- The longest delay asked for a host, and no less than `least`.
  abbrev pub longest_delay : Text → List Use → ℕ → ℕ
  longest_delay host [] least = least
  longest_delay host (wait_for other ∷ uses) least = longest_delay host uses least
  longest_delay host (slow other delay ∷ uses) least =
      longest_delay host uses
        (if to_lower u other == to_lower u host then max least (every delay) else least)

  delay_or_least : Option ℕ → ℕ
  delay_or_least none = every min_delay
  delay_or_least (some delay) = delay

  abbrev delay_at : Text → Limiters → ℕ
  delay_at key by_host = delay_or_least (lookup key by_host)

  get_found-delay :
      (host : Text) (by_host : Limiters) (o : Option ℕ)
      → (get_found host by_host o).0 ≡ delay_or_least o
  unfolding delay_or_least
  get_found-delay host by_host none = refl
  get_found-delay host by_host (some delay) = refl

  get_limiter-delay_at :
      (host : Text) (by_host : Limiters)
      → delay_of host by_host ≡ delay_at (to_lower u host) by_host
  unfolding get_limiter
  get_limiter-delay_at host by_host =
      get_found-delay (to_lower u host) by_host (lookup (to_lower u host) by_host)

  delay_or_least-if :
      (b : Bool) (delay : ℕ) (o : Option ℕ)
      → delay_or_least (if b then some delay else o) ≡ (if b then delay else delay_or_least o)
  unfolding delay_or_least
  delay_or_least-if true delay o = refl
  delay_or_least-if false delay o = refl

  delay_at-insert :
      (j k : Text) (delay : ℕ) (by_host : Limiters)
      → delay_at j (insert k delay by_host) ≡ (if k == j then delay else delay_at j by_host)
  delay_at-insert j k delay by_host =
      ap delay_or_least (lookup-insert k j delay by_host)
      ∙ delay_or_least-if (k == j) delay (lookup j by_host)

  least_kept :
      (j k : Text) (by_host : Limiters)
      → lookup k by_host ≡ none
      → (if k == j then every min_delay else delay_at j by_host) ≡ delay_at j by_host
  unfolding delay_or_least
  least_kept j k by_host new = elim (Bool-cases (k == j)) [
    | inr other ↦ rw other refl
    | inl same ↦
        let here : k ≡ j = (list_beq_iff k j).0 same in
        let absent : lookup j by_host ≡ none = subst (λ i. lookup i by_host ≡ none) here new in
        rw same (sym (ap delay_or_least absent))
  ]

  get_found-delay_at :
      (j k : Text) (by_host : Limiters) (o : Option ℕ)
      → lookup k by_host ≡ o
      → delay_at j (get_found k by_host o).1 ≡ delay_at j by_host
  get_found-delay_at j k by_host (some delay) h = refl
  get_found-delay_at j k by_host none h =
      delay_at-insert j k (every min_delay) by_host ∙ least_kept j k by_host h

  delay_at-get_limiter :
      (j host : Text) (by_host : Limiters)
      → delay_at j (get_limiter host by_host).1 ≡ delay_at j by_host
  unfolding get_limiter
  delay_at-get_limiter j host by_host =
      get_found-delay_at j (to_lower u host) by_host (lookup (to_lower u host) by_host) refl

  slow_to-delay_at :
      (j host : Text) (delay : ℤ) (by_host : Limiters)
      → delay_at j (slow_to host delay by_host) ≡ (
          if to_lower u host == j
          then max (delay_at j by_host) (every delay)
          else delay_at j by_host)
  unfolding slow_to
  slow_to-delay_at j host delay by_host =
      let k = to_lower u host in
      let got = get_limiter host by_host in
      elim (Bool-cases (ltb got.0 (every delay))) [
        | inl slower ↦
            rw (slower, slow_to)
              (delay_at-insert j k (every delay) got.1
                ∙ ground (
                  arith,
                  delay_at-get_limiter j host by_host,
                  get_limiter-delay_at host by_host,
                  list_beq_iff k j,
                ))
        | inr no_slower ↦
            rw (no_slower, slow_to)
              (ground (
                arith,
                delay_at-get_limiter j host by_host,
                get_limiter-delay_at host by_host,
                list_beq_iff k j,
              ))
      ]

  use_limiter-delay_of :
      (x : Use) (host : Text) (by_host : Limiters)
      → delay_of host (use_limiter x by_host) ≡ longest_delay host (x ∷ []) (delay_of host by_host)
  unfolding use_limiter
  use_limiter-delay_of (wait_for other) host by_host =
      get_limiter-delay_at host _
      ∙ (delay_at-get_limiter (to_lower u host) other by_host
          ∙ sym (get_limiter-delay_at host by_host))
  use_limiter-delay_of (slow other delay) host by_host =
      get_limiter-delay_at host (slow_to other delay by_host)
      ∙ rw (get_limiter-delay_at host by_host)
          (slow_to-delay_at (to_lower u host) other delay by_host)

  use_limiters-longest :
      (uses : List Use) (host : Text) (by_host : Limiters)
      → delay_of host (use_limiters uses by_host) ≡ longest_delay host uses (delay_of host by_host)
  unfolding use_limiters
  use_limiters-longest [] host by_host = refl
  use_limiters-longest (wait_for other ∷ uses) host by_host =
      use_limiters-longest uses host (use_limiter (wait_for other) by_host)
      ∙ ap (longest_delay host uses) (use_limiter-delay_of (wait_for other) host by_host)
  use_limiters-longest (slow other delay ∷ uses) host by_host =
      use_limiters-longest uses host (use_limiter (slow other delay) by_host)
      ∙ ap (longest_delay host uses) (use_limiter-delay_of (slow other delay) host by_host)

-- Where the seeds take and slow the limiters one after the other, no two calls overlapping, in
-- whatever order, the delay between requests to a host is the longest that any of them asked for on
-- it, upper and lower case alike, and never below the least delay.
pub use_limiters-longest_delay :
    (u : Unicode) (min_delay : ℤ) (uses : List Use) (host : Text)
    → delay_of u min_delay host (use_limiters u min_delay uses [])
      ≡ longest_delay u min_delay host uses (every min_delay)
unfolding get_limiter
use_limiters-longest_delay u min_delay uses host = use_limiters-longest u min_delay uses host []
