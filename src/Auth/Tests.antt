-- ===== src/Auth/Tests.antt =====
-- A site where nothing but marks stand for hashes.
use jobs_scraper.Prelude.{ℕ, ◌≡◌, refl, true, false, some, [], ◌∷◌, ◌++◌, arith}
use jobs_scraper.Prelude.Keys.{◌==◌, nat_eq, list_eq, lookup}
use jobs_scraper.Prelude.Text.{Text, codes}
use jobs_scraper.Sessions.{Accounts, refresh_token_expiry, validate_password, store_refresh_token}
use jobs_scraper.Auth.{
  Vault, Verifier, verified, Site, ProfileRequest, set_refresh_cookie, create_profile,
  create_session,
}
use jobs_scraper.Auth.Handlers.{
  token_answer, invalid_login, missing_token, handle_login_profile, handle_create_profile,
  handle_refresh_profile, handle_logout_profile,
}
use jobs_scraper.Auth.Login.{handle_login_profile-alike}
use jobs_scraper.Auth.Created.{handle_create_profile-can_log_in}
use jobs_scraper.Auth.Logout.{handle_logout_profile-ends}

abbrev vault : Vault
vault = record {
  token_hash = λ t. codes "#" ++ t;
  hash_password = λ p. codes "!" ++ p;
  check_password = λ p hash. codes "!" ++ p == hash;
  access_token = λ id now. id ∷ now ∷ [];
}

abbrev lenient : Verifier
lenient = record { verify = λ email. verified true true false; parses = λ email. true }

abbrev request : ProfileRequest
request = record { email = codes "a@b.c"; password = codes "long enough"; remember_me = true }

abbrev no_accounts : Accounts
no_accounts = record { refresh_tokens = []; reset_tokens = []; passwords = [] }

abbrev empty_site : Site
empty_site = record { emails = []; next_id = 1; accounts = no_accounts }

abbrev one_account : Accounts
one_account = record {
  refresh_tokens = [];
  reset_tokens = [];
  passwords = (1, codes "!other") ∷ [];
}

abbrev one_profile : Site
one_profile = record { emails = (codes "a@b.c", 1) ∷ []; next_id = 2; accounts = one_account }

wrong :
    (id : ℕ) (hash : Text)
    → lookup request.email one_profile.emails ≡ some id
    → lookup id one_profile.accounts.passwords ≡ some hash
    → vault.check_password request.password hash ≡ false
wrong id hash known stored = ground (arith, known, stored)

handle_login_profile-alike_example :
    handle_login_profile vault (some request) 10 (codes "t") true true one_profile
    ≡ (invalid_login, one_profile)
handle_login_profile-alike_example =
    handle_login_profile-alike vault request 10 (codes "t") true one_profile wrong

handle_create_profile-can_log_in_example :
    (handle_login_profile vault
      (some request)
      20
      (codes "u")
      true
      true
      (handle_create_profile vault lenient (some request) 10 (codes "t") true true empty_site).1).0
    ≡ token_answer 202
        (vault.access_token 1 20)
        (set_refresh_cookie (codes "u") (refresh_token_expiry 20 true) true)
unfolding handle_create_profile create_profile validate_password create_session store_refresh_token
handle_create_profile-can_log_in_example =
    handle_create_profile-can_log_in vault lenient request 10 20 (codes "t") (codes "u") true true
      empty_site refl refl refl

handle_logout_profile-ends_example :
    handle_refresh_profile vault
      (some (codes "t"))
      10
      (codes "u")
      true
      (handle_logout_profile vault (some (codes "t")) true one_profile).1
    ≡ (missing_token, (handle_logout_profile vault (some (codes "t")) true one_profile).1)
handle_logout_profile-ends_example =
    handle_logout_profile-ends vault (codes "t") (codes "u") 10 one_profile
