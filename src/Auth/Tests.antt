-- ===== src/Auth/Tests.antt =====
-- The lock of an account at concrete inputs.
use metaverse_rang_microserv.Common.{
  ℕ, ◌+◌, ◌*◌, ◌≡◌, ◌≢◌, refl, true, false, none, some, [], ◌∷◌, ◌++◌, arith, ◌==◌,
}
use metaverse_rang_microserv.Common.Table.{select, count}
use metaverse_rang_microserv.Common.Server.{Server, ok, err}
use metaverse_rang_microserv.Auth.{
  has_otp_id, mobile, Account, AccountSecurity, Otp, AuthStore, AuthError, Bcrypt, auth_db,
  is_account, same_phone, security_of, unlock_security, request_account_security,
  verify_account_security,
}
use metaverse_rang_microserv.Auth.Unlocking.{
  verify_account_security_opens, verify_account_security_refused,
}
use metaverse_rang_microserv.Auth.Reuse.{request_account_security_reuses}
use metaverse_rang_microserv.Auth.Codes.{request_account_security-verify_account_security}

same_code : (c : ℕ) → (c == c) ≡ true
same_code c = ground arith

only_code : (c d : ℕ) → (c == d) ≡ true → c ≡ d
only_code c d same = ground (arith, same)

abbrev plain : Bcrypt
plain = record {
  hash = λ c. c;
  matches = λ h c. h == c;
  matches_hash = same_code;
  matches_only = only_code;
}

abbrev user : Account
user = record { id = 2; phone = some 912; is_verified = true }

abbrev lock : AccountSecurity
lock = record { id = 1; user_id = 2; unlocked = false; until = none; length = 600 }

abbrev otp : Otp
otp = record { id = 1; verifiable_id = 1; code = 123_456 }

abbrev store : AuthStore
store = record {
  accounts = user ∷ [];
  securities = lock ∷ [];
  otps = otp ∷ [];
  slots = [];
  sent = [];
  events = [];
  next_security_id = 2;
  next_otp_id = 2;
  now = 1_000;
}

abbrev up : Server AuthStore
up = record { tables = store; calls = 0; fails = λ n. false }

verify_account_security_opens_example :
    let verified = verify_account_security plain 2 (some 123_456) up in
    let again = verify_account_security plain 2 (some 123_456) verified.1 in
    (verified.0 ≡ ok tt)
    × (count (has_otp_id 1) verified.1.tables.otps ≡ 0)
    × (select (is_account 2) verified.1.tables.accounts ≡ some user)
    × (verified.1.tables.events ≡ 2 ∷ [])
    × (select (security_of 2) verified.1.tables.securities ≡ some (unlock_security 1_000 lock))
    × ((e : AuthError) × (again.0 ≡ err e))
    × (again.1.tables ≡ verified.1.tables)
unfolding select
verify_account_security_opens_example =
    verify_account_security_opens plain 2 123_456 user lock otp up (λ n. refl) refl refl refl refl
      refl

verify_account_security_refused_example :
    ((e : AuthError) × ((verify_account_security plain 2 (some 111_111) up).0 ≡ err e))
    × ((verify_account_security plain 2 (some 111_111) up).1.tables ≡ store)
unfolding select
verify_account_security_refused_example =
    verify_account_security_refused plain 2 111_111 lock otp up refl refl refl

request_account_security-verify_account_security_example :
    let requested = request_account_security plain false true 2 30 (mobile 912) 654_321 up in
    let verified = verify_account_security plain 2 (some 654_321) requested.1 in
    (requested.0 ≡ ok tt)
    × (requested.1.tables.sent ≡ [] ++ ((912, 654_321) ∷ []))
    × (verified.0 ≡ ok tt)
    × ((security : AccountSecurity) × (select (security_of 2) verified.1.tables.securities
          ≡ some security)
        × (security.unlocked ≡ true)
        × (security.until ≡ some (1_000 + 30 * 60)))
    × ((other : ℕ)
        → other ≢ 654_321
        → (verify_account_security plain 2 (some other) requested.1).1.tables ≡ requested.1.tables)
unfolding select
request_account_security-verify_account_security_example =
    request_account_security-verify_account_security plain 2 30 654_321 912 (mobile 912) user up
      (λ n. refl) (omega arith) (omega arith) refl refl refl

abbrev unverified : Account
unverified = record user { is_verified = false }

-- the sixth call fails
abbrev failing : Server AuthStore
failing = record {
  tables = record store { accounts = unverified ∷ [] };
  calls = 0;
  fails = λ n. n == 0 + 5;
}

request_account_security_reuses_example :
    let requested = request_account_security plain false true 2 30 (mobile 935) 654_321 failing in
    let verified = verify_account_security plain 2 (some 123_456) requested.1 in
    (requested.0 ≡ err auth_db)
    × (requested.1.tables.sent ≡ [])
    × (verified.0 ≡ ok tt)
    × ((locked : AccountSecurity) × (select (security_of 2) verified.1.tables.securities
          ≡ some locked)
        × (locked.unlocked ≡ true))
    × (select (is_account 2) verified.1.tables.accounts
        ≡ some (record unverified { phone = some 935; is_verified = true }))
unfolding select count same_phone
request_account_security_reuses_example =
    request_account_security_reuses plain 2 30 654_321 935 123_456 unverified lock otp failing
      (λ n. refl) (omega arith) (omega arith) refl refl refl refl refl refl refl
