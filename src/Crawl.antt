-- ===== src/Crawl.antt =====
-- The crawl of one career site (backend/crawler/crawler.go, backend/crawler/sitemap.go): what it
-- asks of the site, and the steps of the walk; then the theorems, by what they prove.
pub mod Site
pub mod Steps
mod Runs
pub mod Hosts
pub mod Races
pub mod Seeds
pub mod Once
pub mod Polite
pub mod Budget
mod Tests
