-- ===== src/Jobs/Workplace.antt =====
-- Reading and writing a kind of workplace.
use jobs_scraper.Prelude.{◌≡◌, refl}
use jobs_scraper.Prelude.Keys.{nat_eq, list_eq}
use jobs_scraper.Prelude.Text.{Unicode}
use jobs_scraper.Jobs.{
  WorkplaceType, unknown, remote, hybrid, in_person, marshal_workplace, unmarshal_workplace,
}

-- Every kind of workplace that is written as JSON is read back as itself.
pub unmarshal-marshal_workplace :
    (u : Unicode) (w : WorkplaceType) → unmarshal_workplace u (marshal_workplace w) ≡ w
unfolding unmarshal_workplace marshal_workplace
unmarshal-marshal_workplace u unknown = refl
unmarshal-marshal_workplace u remote = refl
unmarshal-marshal_workplace u hybrid = refl
unmarshal-marshal_workplace u in_person = refl
