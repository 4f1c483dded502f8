-- ===== src/Auth/Login.antt =====
-- Who can log in, and what an answer gives away.
use jobs_scraper.Prelude.{
  ℕ, ◌≡◌, refl, inl, inr, Bool, true, false, Bool-cases, Option, none, some, Option-cases, arith,
}
use jobs_scraper.Prelude.Keys.{nat_eq, list_eq, lookup, member}
use jobs_scraper.Prelude.Text.{Text}
use jobs_scraper.Jobs.{Time}
use jobs_scraper.Sessions.{hashes, refresh_token_expiry, store_refresh_token}
use jobs_scraper.Auth.{
  Vault, Site, ProfileRequest, get_profile_by_email, CookieChange, set_refresh_cookie,
  create_session,
}
use jobs_scraper.Auth.Handlers.{
  token_answer, session_answer, dummy_password_hash, invalid_login, could_not_log_in,
  compared_login, handle_login_profile,
}

-- The accounts of a site but for its refresh tokens.
abbrev pub SameKeys : Site → Site → Type 0
SameKeys s t =
    (t.emails ≡ s.emails)
    × ((t.next_id ≡ s.next_id)
        × ((t.accounts.passwords ≡ s.accounts.passwords)
            × (t.accounts.reset_tokens ≡ s.accounts.reset_tokens)))

-- A session adds a refresh token and nothing else.
pub create_session-SameKeys :
    (w : Vault) (profile : ℕ) (now : Time) (fresh : Text) (persistent up : Bool) (s : Site)
    → SameKeys s (create_session w profile now fresh persistent up s).1
unfolding create_session store_refresh_token
create_session-SameKeys w profile now fresh persistent false s = (refl, (refl, (refl, refl)))
create_session-SameKeys w profile now fresh persistent true s =
    elim (Bool-cases (member (w.token_hash fresh) (hashes s.accounts.refresh_tokens))) [
      | inl taken ↦ rw (taken, create_session, store_refresh_token) (refl, (refl, (refl, refl)))
      | inr unused ↦ rw (unused, create_session, store_refresh_token) (refl, (refl, (refl, refl)))
    ]

create_session-made :
    (w : Vault) (profile : ℕ) (now : Time) (fresh : Text) (persistent : Bool) (s : Site)
    → member (w.token_hash fresh) (hashes s.accounts.refresh_tokens) ≡ false
    → (create_session w profile now fresh persistent true s).0
      ≡ some (
        w.access_token profile now,
        set_refresh_cookie fresh (refresh_token_expiry now persistent) persistent,
      )
unfolding create_session store_refresh_token
create_session-made w profile now fresh persistent s unused =
    rw (unused, create_session, store_refresh_token) refl

session_answer-made :
    (status : ℕ) (failure token : Text) (cookie : CookieChange)
    (r : Option (Text × CookieChange) × Site)
    → r.0 ≡ some (token, cookie)
    → (session_answer status failure r).0 ≡ token_answer status token cookie
session_answer-made status failure token cookie (none, s) h = absurd (ground arith)
session_answer-made status failure token cookie (some (t, k), s) h = ground arith

-- The profile that an address belongs to logs in with a password that fits its hash.
pub handle_login_profile-fits :
    (w : Vault) (req : ProfileRequest) (now : Time) (fresh : Text) (s : Site) (id : ℕ) (hash : Text)
    → lookup req.email s.emails ≡ some id
    → lookup id s.accounts.passwords ≡ some hash
    → w.check_password req.password hash ≡ true
    → member (w.token_hash fresh) (hashes s.accounts.refresh_tokens) ≡ false
    → (handle_login_profile w (some req) now fresh true true s).0
      ≡ token_answer 202
          (w.access_token id now)
          (set_refresh_cookie fresh (refresh_token_expiry now req.remember_me) req.remember_me)
unfolding handle_login_profile get_profile_by_email
handle_login_profile-fits w req now fresh s id hash known stored fits unused =
    rw (known, stored, fits, handle_login_profile, get_profile_by_email)
      (session_answer-made 202 could_not_log_in _ _
        (create_session w id now fresh req.remember_me true s)
        (create_session-made w id now fresh req.remember_me s unused))

-- Where no profile has the address, or its hash does not fit the password, the answer to a login that
-- the database can look up is the same, and no session begins.
pub handle_login_profile-alike :
    (w : Vault) (req : ProfileRequest) (now : Time) (fresh : Text) (up_too : Bool) (s : Site)
    → ((id : ℕ) (hash : Text)
        → lookup req.email s.emails ≡ some id
        → lookup id s.accounts.passwords ≡ some hash
        → w.check_password req.password hash ≡ false)
    → handle_login_profile w (some req) now fresh true up_too s ≡ (invalid_login, s)
unfolding handle_login_profile get_profile_by_email
handle_login_profile-alike w req now fresh up_too s wrong =
    elim (Option-cases (lookup req.email s.emails)) [
      | inl unknown ↦ rw (unknown, handle_login_profile, get_profile_by_email) not_found
      | inr (id, known) ↦ elim (Option-cases (lookup id s.accounts.passwords)) [
        | inl unset ↦ rw (known, unset, handle_login_profile, get_profile_by_email) not_found
        | inr (hash, stored) ↦
            rw
              (
                known,
                stored,
                wrong id hash known stored,
                handle_login_profile,
                get_profile_by_email,
              )
              refl
      ]
    ]
  where
    not_found :
        compared_login w req now fresh up_too s false 0 (dummy_password_hash w) ≡ (invalid_login, s)
    not_found = elim (Bool-cases (w.check_password req.password (dummy_password_hash w))) [
      | inl fits ↦ rw fits refl
      | inr misses ↦ rw misses refl
    ]
