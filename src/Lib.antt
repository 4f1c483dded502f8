-- ===== src/Lib.antt =====
-- JobsScraper, a job board in Go: sources and a crawler collect postings, a cycle merges, trims and
-- writes them to PostgreSQL, and a server answers searches, tailors resumes, makes quizzes and keeps
-- sessions. This library models parts of the code under backend/ as functions and proves theorems
-- about them.
--
-- Parts, each with the file that models it:
--   Jobs         backend/jobs/job.go: Job, WorkplaceType and its readers and writers.
--   Robots       backend/crawler/robots.go: parseRobots, pickGroups, withGroups, newRobotsRule and
--                allowed. The regular expression that newRobotsRule builds is a text; Prelude/Regexp
--                models the part of Go's regexp that it uses.
--   Crawl        backend/crawler/crawler.go and sitemap.go. Crawl/Site has the requests (fetchRobots,
--                fetchSitemap, fetchPage, wanted, inScope, unknown), Crawl/Steps the walk of crawlSeed,
--                Crawl/Hosts and Crawl/Races the limiters of hostLimiters, Crawl/Seeds FetchJobs. The
--                walk uses Robots for every link.
--   Tailoring    backend/llm/tailoring.go with the types of backend/llm/resume_extraction.go:
--                hydrateTailoredResume and what it calls.
--   Scraper      backend/scraper/scraper.go: fetchAll, dropExpiredJobs, capNewestJobs, runScraper. A
--                cycle is the list of its calls of the database.
--   Write        backend/database/write.go: dedupeJobsByURL, writeJobs, salaryPtr, the post date that
--                upsertJobs stores, and the tags that replaceJobTags collects.
--   Search       backend/server/jobs.go: parseJobSearchParams and its setters, over the parameters of
--                backend/database/indexer.go. Search/Where is buildJobSearchWhere there: conditions that
--                name their arguments by number, and what they say of a row.
--   Trivia       backend/llm/trivia.go (sanitizeTrivia, distinctOptions, shuffleOptions) and
--                backend/server/trivia.go (parseTriviaRequest). Trivia/Store is the table of
--                backend/database/trivia.go, and a call of a profile is a step on it.
--   Sessions     backend/database/refresh_tokens.go and password_reset.go, with validatePassword of
--                backend/database/profiles.go: the two tables of tokens and the passwords.
--   Postings     backend/crawler/extract.go behind its parsers: findPostings and the
--                readers of values. Postings/Salary has yearlySalary with backend/jobs/salary.go
--                (normalizePeriod, yearly, YearlySalary), Postings/Places placesText, employmentTags
--                and CleanTags of backend/utils/strip_html.go, Postings/Mapping toJob. The crawl takes
--                such pages and such a toJob as parameters. Postings/Pages is parsePage.
--   Rows         what backend/database makes of a table whose rows have an owner and are unique by a
--                key: upserts, updates and deletions, with the errors of backend/database/errors.go.
--   Server       backend/server/response.go: responses, writeDBError and pathID.
--   Profiles     backend/database/profile_education.go, profile_skills.go and
--                profile_work_experience.go over Rows: the checks in Profiles, the calls in
--                Profiles/Store, and in Profiles/Handlers the handlers of backend/server/profiles.go,
--                where serve answers a request of a profile.
--   Resumes      backend/database/profile_resumes.go, and in Resumes/Names and Resumes/Handlers
--                backend/server/resumes.go: uploads, activation, and extraction with its embedding.
--   Auth         backend/database/profiles.go (CreateProfile, GetProfileByEmail) with createSession and
--                withAuth of backend/server; Auth/Handlers has the handlers of accounts, sessions and
--                password resets. It uses Sessions for the tokens.
--   Relevance    backend/relevance/query.go: SearchQuery and splitTerms.
--   Digest       backend/digest/digest.go: sendForProfile as the list of its effects, goodFitJobs. It
--                uses Relevance for the query.
--   Prelude      what the parts share: lists, keys and maps, text, decimal numbers, stable sorting,
--                and the part of regexp that the rules of robots.txt use.
--
-- How the code is read:
--   Text is a list of code points. Case tables above ASCII are a parameter (Unicode), as are floating
--   point (Floats, Scores, Numbers), the web (World: responses, url.Parse, the HTML and XML parsers,
--   the stored URLs), the calendar, the salary parser, regexp splitting, SHA-256, bcrypt and random
--   values.
--   An int is an integer; strconv.Atoi refuses what does not fit 64 bits. Time is nanoseconds since the
--   zero time. A nil slice and an empty one are the same list. A Go map is an association list.
--   Crawl/Hosts has calls of the limiters that do not overlap; Crawl/Races has their steps, as slowTo
--   sets the limit outside the lock that finds the limiter. A month is taken of an instant, in one
--   time zone.
--   A statement of SQL is a function of the rows. Where the database may refuse it for other reasons
--   than those named (a connection that is lost, an id beyond the column's 32 bits, a profile that is
--   gone), Profiles takes for each statement how it ends (run, not run, or run with its answer lost),
--   Resumes and Auth take a Boolean up for each call, which runs and answers or is not run, and Write
--   refuses chunks, where a transaction begins and, once all chunks are written, commits; elsewhere
--   such failures are left out. A failure of the server is answered with its status and
--   message; what is logged is left out.
--   A request is behind its middleware: an id of the path is its text, a body is decoded or none. Random
--   tokens, the time, the verdict of the address verifier and what the language model finds in a resume
--   are arguments. A JSON value is what the decoder makes of a text: its objects are lists of fields, of
--   which a later one replaces an earlier one of the same key, and null stays null.
--   The sources of a cycle run at the same time in the code and hand over their batches one by one
--   under a lock: the list of results is the order in which they do.
--
-- Fuel: the crawl's loop runs on the page budget MaxPagesPerSeed, of which every turn uses one, and
-- the walk over sitemaps on maxSitemaps, in the same way. chunks_from runs on the length of the batch
-- plus one, which is more than its chunks, and the digits of a number on the number plus one, which is
-- more than its digits.
--
-- Not modelled: the frontend, the handlers of searches, quizzes and generation, the page of a
-- profile, CORS, logging and rate limiters, the clients of remote services and job feeds, the
-- extraction of resumes from files, salaries in free text, the unsubscribe links, the ranking of a
-- search, the tables of tailored resumes and applications, mail, timers and start-up.
pub mod Prelude
pub mod Jobs
pub mod Auth
pub mod Postings
pub mod Resumes
pub mod Robots
pub mod Crawl
pub mod Tailoring
pub mod Scraper
pub mod Write
pub mod Search
pub mod Trivia
pub mod Sessions
pub mod Relevance
pub mod Digest
pub mod Rows
pub mod Server
pub mod Profiles
