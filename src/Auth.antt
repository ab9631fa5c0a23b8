-- ===== src/Auth.antt =====
-- services/auth-service/internal/service/auth_service.go with account_security_repository.go and the
-- statements of user_repository.go and cache_repository.go that it calls: the lock of an account, and
-- the code that opens it. Times are in seconds and the clock stands still while a handler runs.
pub mod Unlocking
pub mod Rows
pub mod Codes
pub mod Reuse
mod Tests
use metaverse_rang_microserv.Common.{
  ℕ, ◌+◌, ◌*◌, ◌≡◌, Bool, true, false, not, ◌&&◌, ◌||◌, Option, none, some, List, [], ◌∷◌, ◌++◌,
  ltb, ◌==◌, if◌then◌else◌,
}
use metaverse_rang_microserv.Common.Table.{select, count, update, delete}
use metaverse_rang_microserv.Common.Server.{
  Server, Action, ok, pure, raise, or_raise, query, exec, raise_if, ◌>>=◌, ◌>>◌,
}

-- what TrimSpace and iranMobileRegex make of the text of a phone
pub data PhoneText : Type 0 where
  blank malformed : PhoneText
  mobile : ℕ → PhoneText

-- `phone` is none where the column is NULL or blank
pub record Account : Type 0 where
  pub id : ℕ
  pub phone : Option ℕ
  pub is_verified : Bool

pub record AccountSecurity : Type 0 where
  pub id : ℕ
  pub user_id : ℕ
  pub unlocked : Bool
  pub until : Option ℕ
  pub length : ℕ

pub record Otp : Type 0 where
  pub id : ℕ
  pub verifiable_id : ℕ
  pub code : ℕ

-- `slots` are the users who have the key of the rate limit in the cache, `sent` the phones and codes
-- that notifications-service was asked to send, `events` the users of the events that are recorded.
pub record AuthStore : Type 0 where
  pub accounts : List Account
  pub securities : List AccountSecurity
  pub otps : List Otp
  pub slots : List ℕ
  pub sent : List (ℕ × ℕ)
  pub events : List ℕ
  pub next_security_id : ℕ
  pub next_otp_id : ℕ
  pub now : ℕ

pub data AuthError : Type 0 where
  invalid_duration rate_limited user_not_found phone_required invalid_phone : AuthError
  phone_taken invalid_code security_not_found already_unlocked no_client auth_db : AuthError

abbrev pub AuthAction : Type 0 → Type 0
AuthAction = Action AuthStore AuthError

-- bcrypt, whose comparison takes the code that was hashed and no other
pub record Bcrypt : Type 0 where
  pub hash : ℕ → ℕ
  pub matches : ℕ → ℕ → Bool
  pub matches_hash : (c : ℕ) → matches (hash c) c ≡ true
  pub matches_only : (c d : ℕ) → matches (hash c) d ≡ true → c ≡ d

abbrev pub is_account : ℕ → Account → Bool
is_account id a = a.id == id

abbrev pub security_of : ℕ → AccountSecurity → Bool
security_of user_id s = s.user_id == user_id

abbrev pub has_security_id : ℕ → AccountSecurity → Bool
has_security_id id s = s.id == id

abbrev pub verifies : ℕ → Otp → Bool
verifies security_id o = o.verifiable_id == security_id

abbrev pub has_otp_id : ℕ → Otp → Bool
has_otp_id id o = o.id == id

unfoldable pub same_phone : Option ℕ → ℕ → Bool
same_phone none p = false
same_phone (some q) p = q == p

unfoldable pub lock_security : ℕ → AccountSecurity → AccountSecurity
lock_security seconds s = record s { unlocked = false; until = none; length = seconds }

unfoldable pub unlock_security : ℕ → AccountSecurity → AccountSecurity
unlock_security now s = record s { unlocked = true; until = some (now + s.length) }

unfoldable pub insert_security : ℕ → ℕ → AuthStore → AuthStore
insert_security user_id seconds t = record t {
  securities =
      t.securities
      ++ (record {
        id = t.next_security_id;
        user_id = user_id;
        unlocked = false;
        until = none;
        length = seconds;
      }
          ∷ []);
  next_security_id = t.next_security_id + 1;
}

-- `Update` with the columns of the row that was read, as they were changed
unfoldable pub write_security : AccountSecurity → AuthStore → AuthStore
write_security row t = record t {
  securities =
      update (has_security_id row.id)
        (λ s. record s { unlocked = row.unlocked; until = row.until; length = row.length })
        t.securities;
}

unfoldable pub insert_otp : ℕ → ℕ → AuthStore → AuthStore
insert_otp security_id code t = record t {
  otps = t.otps ++ (record { id = t.next_otp_id; verifiable_id = security_id; code = code } ∷ []);
  next_otp_id = t.next_otp_id + 1;
}

unfoldable pub write_otp : ℕ → ℕ → AuthStore → AuthStore
write_otp id code t = record t {
  otps = update (has_otp_id id) (λ o. record o { code = code }) t.otps;
}

unfoldable pub delete_otp : ℕ → AuthStore → AuthStore
delete_otp id t = record t { otps = delete (has_otp_id id) t.otps }

unfoldable pub update_phone : ℕ → ℕ → AuthStore → AuthStore
update_phone id phone t = record t {
  accounts = update (is_account id) (λ a. record a { phone = some phone }) t.accounts;
}

unfoldable pub mark_phone_as_verified : ℕ → AuthStore → AuthStore
mark_phone_as_verified id t = record t {
  accounts = update (is_account id) (λ a. record a { is_verified = true }) t.accounts;
}

-- `enforceAccountSecurityVerificationRateLimit`, where `limited` says that it is on: SETNX
unfoldable pub enforce_rate_limit : Bool → ℕ → AuthAction (Unit {0})
enforce_rate_limit false user_id = pure tt
enforce_rate_limit true user_id = do
  taken ← query auth_db (λ t. ltb 0 (count (λ u. u == user_id) t.slots))
  raise_if taken rate_limited
  λ s. (ok tt, record s { tables = record s.tables { slots = s.tables.slots ++ (user_id ∷ []) } })

-- the row of the lock, closed, and its id
unfoldable pub lock_account : ℕ → ℕ → AuthAction ℕ
lock_account user_id seconds = do
  row ← query auth_db (λ t. select (security_of user_id) t.securities)
  elim row [
    | none ↦
        (λ s. (exec auth_db (insert_security user_id seconds) >> pure s.tables.next_security_id) s)
    | some r ↦ (exec auth_db (write_security (lock_security seconds r)) >> pure r.id)
  ]

unfoldable pub take_phone : Account → ℕ → AuthAction (Option ℕ)
take_phone user p = do
  (if same_phone user.phone p then pure tt else (do
    taken ←
        query auth_db
          (λ t. ltb 0 (count (λ a. not (a.id == user.id) && same_phone a.phone p) t.accounts))
    raise_if taken phone_taken))
  exec auth_db (update_phone user.id p)
  pure (some p)

-- the phone that the code goes to: the verified one, or the one of the request
unfoldable pub choose_phone : Account → PhoneText → AuthAction (Option ℕ)
unfolding take_phone
choose_phone user phone = elim user.phone [
  | none ↦ elim phone [
    | blank ↦ raise phone_required
    | malformed ↦ raise invalid_phone
    | mobile p ↦ take_phone user p
  ]
  | some q ↦ elim user.is_verified [
    | true ↦ pure (some q)
    | false ↦ elim phone [
      | blank ↦ raise phone_required
      | malformed ↦ raise invalid_phone
      | mobile p ↦ take_phone user p
    ]
  ]
]

-- `UpsertOtp`
unfoldable pub upsert_otp : ℕ → ℕ → AuthAction (Unit {0})
upsert_otp security_id code = do
  existing ← query auth_db (λ t. select (verifies security_id) t.otps)
  elim existing [
    | none ↦ exec auth_db (insert_otp security_id code)
    | some o ↦ exec auth_db (write_otp o.id code)
  ]

-- `dispatchAccountSecurityOTP`, where `connected` says that there is a client
unfoldable pub dispatch_otp : Bool → Option ℕ → ℕ → AuthAction (Unit {0})
dispatch_otp connected none code = raise phone_required
dispatch_otp connected (some phone) code = do
  raise_if (not connected) no_client
  exec auth_db (λ t. record t { sent = t.sent ++ ((phone, code) ∷ []) })

module _ (bcrypt : Bcrypt) where
  -- `RequestAccountSecurity`; `code` is the random code
  unfoldable pub request_account_security :
      Bool → Bool → ℕ → ℕ → PhoneText → ℕ → AuthAction (Unit {0})
  unfolding enforce_rate_limit lock_account choose_phone upsert_otp dispatch_otp
  request_account_security limited connected user_id minutes phone code = do
    raise_if (ltb minutes 5 || ltb 60 minutes) invalid_duration
    enforce_rate_limit limited user_id
    row ← query auth_db (λ t. select (is_account user_id) t.accounts)
    user ← or_raise row user_not_found
    security_id ← lock_account user_id (minutes * 60)
    target ← choose_phone user phone
    upsert_otp security_id (bcrypt.hash code)
    dispatch_otp connected target code

  -- what the guards of `VerifyAccountSecurity` let through
  unfoldable pub check_code : ℕ → Option ℕ → AuthAction (Account × AccountSecurity × Otp)
  check_code user_id code = do
    c ← or_raise code invalid_code
    row ← query auth_db (λ t. select (is_account user_id) t.accounts)
    user ← or_raise row user_not_found
    lock ← query auth_db (λ t. select (security_of user_id) t.securities)
    security ← or_raise lock security_not_found
    raise_if security.unlocked already_unlocked
    kept ← query auth_db (λ t. select (verifies security.id) t.otps)
    otp ← or_raise kept security_not_found
    raise_if (not (bcrypt.matches otp.code c)) invalid_code
    pure (user, security, otp)

  -- `VerifyAccountSecurity`; `code` is none where it does not have the form of a code
  unfoldable pub verify_account_security : ℕ → Option ℕ → AuthAction (Unit {0})
  unfolding check_code
  verify_account_security user_id code = do
    (user, security, otp) ← check_code user_id code
    (if user.is_verified then pure tt else exec auth_db (mark_phone_as_verified user.id))
    (λ s. exec auth_db (write_security (unlock_security s.tables.now security)) s)
    exec auth_db (delete_otp otp.id)
    exec auth_db (λ t. record t { events = t.events ++ (user_id ∷ []) })
