-- ===== src/Auth/Created.antt =====
-- What a registration leaves.
use jobs_scraper.Prelude.{
  ℕ, ◌≡◌, ◌≢◌, ◌⊎◌, ◌∙◌, refl, ap, inl, inr, Bool, true, false, ◌||◌, Bool-cases, Option, none,
  some, Option-cases, [], arith,
}
use jobs_scraper.Prelude.Keys.{◌==◌, nat_eq, list_eq, eq_self, lookup, lookup-insert, member}
use jobs_scraper.Prelude.Text.{Text}
use jobs_scraper.Jobs.{Time}
use jobs_scraper.Rows.{Reply, ok, invalid_input, no_rows, broken}
use jobs_scraper.Sessions.{hashes, validate_password, refresh_token_expiry}
use jobs_scraper.Auth.{
  Vault, Verifier, Site, ProfileRequest, refuse_email, insert_profile, insert_checked,
  create_profile, set_refresh_cookie, create_session, CookieChange,
}
use jobs_scraper.Auth.Handlers.{
  token_answer, session_answer, could_not_create, first_session, handle_login_profile,
  handle_create_profile,
}
use jobs_scraper.Auth.Login.{SameKeys, create_session-SameKeys, handle_login_profile-fits}

-- A reply that is no id.
abbrev pub IsRefusal : Reply ℕ → Type 0
IsRefusal (ok id) = ⊥
IsRefusal (invalid_input message) = Unit {0}
IsRefusal no_rows = Unit {0}
IsRefusal broken = Unit {0}

-- The site with a new profile.
abbrev pub with_profile : Vault → ProfileRequest → Site → Site
with_profile w req s = (insert_profile w req s none).1

-- A registration adds a profile with an address that was free, or leaves the site alone.
abbrev pub Registers : Vault → ProfileRequest → Site → Reply ℕ × Site → Type 0
Registers w req s r =
    ((lookup req.email s.emails ≡ none) × (r ≡ (ok s.next_id, with_profile w req s)))
    ⊎ (IsRefusal r.0 × (r.1 ≡ s))

refuse_email-IsRefusal :
    (v : Verifier) (email : Text)
    → (r : Reply ℕ) → refuse_email v email (v.verify email) ≡ some r
    → IsRefusal r
refuse_email-IsRefusal v email (invalid_input message) h = tt
refuse_email-IsRefusal v email no_rows h = tt
refuse_email-IsRefusal v email broken h = tt
refuse_email-IsRefusal v email (ok id) h = ground arith

insert_profile-Registers :
    (w : Vault) (req : ProfileRequest) (s : Site)
    → Registers w req s (insert_profile w req s (lookup req.email s.emails))
insert_profile-Registers w req s = elim (Option-cases (lookup req.email s.emails)) [
  | inl free ↦ rw free (inl (refl, refl))
  | inr (id, taken) ↦ rw taken (inr (tt, refl))
]

insert_checked-Registers :
    (w : Vault) (v : Verifier) (req : ProfileRequest) (up : Bool) (s : Site)
    → Registers w req s (insert_checked w req up s (refuse_email v req.email (v.verify req.email)))
insert_checked-Registers w v req up s =
    elim (Option-cases (refuse_email v req.email (v.verify req.email))) [
      | inr (r, refused) ↦ rw refused (inr (refuse_email-IsRefusal v req.email r refused, refl))
      | inl passes ↦
          rw passes (elim up as (λ b. Registers w req s (insert_checked w req b s none)) [
            | true ↦ insert_profile-Registers w req s
            | false ↦ inr (tt, refl)
          ])
    ]

pub create_profile-Registers :
    (w : Vault) (v : Verifier) (req : ProfileRequest) (up : Bool) (s : Site)
    → Registers w req s (create_profile w v req up s)
unfolding create_profile
create_profile-Registers w v req up s = elim (Bool-cases (req.email == [] || req.password == [])) [
  | inl empty ↦ rw (empty, create_profile) (inr (tt, refl))
  | inr given ↦ elim (Bool-cases (validate_password req.password)) [
    | inr bad ↦ rw (given, bad, create_profile) (inr (tt, refl))
    | inl good ↦ rw (given, good, create_profile) (insert_checked-Registers w v req up s)
  ]
]

refused-not_created :
    (w : Vault) (now : Time) (fresh : Text) (up : Bool) (r : Reply ℕ × Site)
    → IsRefusal r.0
    → (first_session w now fresh up r).0.response.status ≢ 201
refused-not_created w now fresh up (invalid_input message, t) no_id = λ e. ground arith
refused-not_created w now fresh up (no_rows, t) no_id = λ e. ground arith
refused-not_created w now fresh up (broken, t) no_id = λ e. ground arith
refused-not_created w now fresh up (ok id, t) no_id = absurd no_id

session_answer-site :
    (status : ℕ) (failure : Text) (r : Option (Text × CookieChange) × Site)
    → (session_answer status failure r).1 ≡ r.1
session_answer-site status failure (none, t) = refl
session_answer-site status failure (some (token, cookie), t) = refl

first_session-SameKeys :
    (w : Vault) (now : Time) (fresh : Text) (up : Bool) (r : Reply ℕ × Site)
    → SameKeys r.1 (first_session w now fresh up r).1
first_session-SameKeys w now fresh up (ok id, t) =
    rw (session_answer-site 201 could_not_create (create_session w id now fresh true up t))
      (create_session-SameKeys w id now fresh true up t)
first_session-SameKeys w now fresh up (invalid_input message, t) = (refl, (refl, (refl, refl)))
first_session-SameKeys w now fresh up (no_rows, t) = (refl, (refl, (refl, refl)))
first_session-SameKeys w now fresh up (broken, t) = (refl, (refl, (refl, refl)))

-- A registration that is answered with 201 lets its address log in with its password from then on:
-- where the password's check accepts the password's own hash, and the database runs both calls and the
-- new token's hash is not taken, the answer is 202 with the access token of the profile that was new.
pub handle_create_profile-can_log_in :
    (w : Vault) (v : Verifier) (req : ProfileRequest) (now later : Time) (fresh fresh_too : Text)
    (up up_too : Bool) (s : Site)
    → w.check_password req.password (w.hash_password req.password) ≡ true
    → (handle_create_profile w v (some req) now fresh up up_too s).0.response.status ≡ 201
    → member (w.token_hash fresh_too) (
        hashes
          (handle_create_profile w v (some req) now fresh up up_too s).1.accounts.refresh_tokens)
      ≡ false
    → (handle_login_profile w
        (some req)
        later
        fresh_too
        true
        true
        (handle_create_profile w v (some req) now fresh up up_too s).1).0
      ≡ token_answer 202 (w.access_token s.next_id later) (
          set_refresh_cookie fresh_too (refresh_token_expiry later req.remember_me) req.remember_me)
unfolding handle_create_profile
handle_create_profile-can_log_in w v req now later fresh fresh_too up up_too s fits created unused =
    elim (create_profile-Registers w v req up s) [
      | inr (no_id, same) ↦
          absurd
            (refused-not_created w now fresh up_too (create_profile w v req up s) no_id created)
      | inl (free, made) ↦
          let r = create_profile w v req up s in
          let keys = first_session-SameKeys w now fresh up_too r in
          let site : r.1 ≡ with_profile w req s = ap (λ x. x.1) made in
          handle_login_profile-fits w req later fresh_too (first_session w now fresh up_too r).1
            s.next_id (w.hash_password req.password)
            (ap (lookup req.email) (keys.0 ∙ ap (λ t. t.emails) site)
              ∙ (lookup-insert req.email req.email s.next_id s.emails
                  ∙ rw (eq_self req.email) refl))
            (ap (lookup s.next_id) (keys.1.1.0 ∙ ap (λ t. t.accounts.passwords) site)
              ∙ (lookup-insert s.next_id s.next_id (w.hash_password req.password)
                    s.accounts.passwords
                  ∙ rw (eq_self s.next_id) refl))
            fits unused
    ]
