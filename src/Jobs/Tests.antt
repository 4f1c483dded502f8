-- ===== src/Jobs/Tests.antt =====
-- Kinds of workplace at concrete texts.
use jobs_scraper.Prelude.{◌≡◌, refl, true}
use jobs_scraper.Prelude.Keys.{nat_eq, list_eq}
use jobs_scraper.Prelude.Text.{codes, ascii_only}
use jobs_scraper.Jobs.{in_person, remote, parse_workplace_type, workplace_from_location}

reads_on_site : parse_workplace_type ascii_only (codes " On-Site ") ≡ (in_person, true)
unfolding parse_workplace_type
reads_on_site = refl

remote_us : workplace_from_location ascii_only (codes "Remote - US") ≡ remote
unfolding workplace_from_location
remote_us = refl
