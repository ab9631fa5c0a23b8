-- ===== src/Auth/Unlocking.antt =====
-- services/auth-service/internal/service/auth_service.go: VerifyAccountSecurity.
use metaverse_rang_microserv.Common.{
  ℕ, ◌+◌, ◌≤◌, ◌≡◌, refl, sym, ap, ◌∙◌, true, false, Option, none, some, [], ◌∷◌, ◌++◌, arith,
  if◌then◌else◌, Bool-cases, inl, inr,
}
use metaverse_rang_microserv.Common.Table.{select, count, delete}
use metaverse_rang_microserv.Common.Table.Laws.{count-delete, select-update}
use metaverse_rang_microserv.Common.Server.{Server, ok, err, Result-cases}
use metaverse_rang_microserv.Auth.{
  has_otp_id, Account, AccountSecurity, Otp, AuthStore, AuthError, Bcrypt, invalid_code, is_account,
  security_of, has_security_id, verifies, unlock_security, write_security, delete_otp,
  mark_phone_as_verified, check_code, verify_account_security,
}

-- the tables after a code opened the lock
pub opened : ℕ → Account → AccountSecurity → Otp → AuthStore → AuthStore
unfolding mark_phone_as_verified write_security unlock_security delete_otp
opened u user security otp t =
    let marked = if user.is_verified then t else mark_phone_as_verified user.id t in
    let unlocked = delete_otp otp.id (write_security (unlock_security t.now security) marked) in
    record unlocked { events = t.events ++ (u ∷ []) }

pub select-opened :
    (u : ℕ) (user : Account) (security : AccountSecurity) (otp : Otp) (t : AuthStore)
    → select (security_of u) t.securities ≡ some security
    → select (security_of u) (opened u user security otp t).securities
      ≡ some (unlock_security t.now security)
unfolding opened
select-opened u user security otp t locks = ground (
  arith,
  locks,
  Bool-cases user.is_verified,
  select-update (security_of u) (has_security_id security.id)
      (λ s. record s {
        unlocked = true;
        until = some (t.now + security.length);
        length = security.length;
      })
      t.securities (λ s. refl),
)

pub select-opened_account :
    (u : ℕ) (user : Account) (security : AccountSecurity) (otp : Otp) (t : AuthStore)
    → select (is_account u) t.accounts ≡ some user
    → select (is_account u) (opened u user security otp t).accounts
      ≡ some (record user { is_verified = true })
unfolding opened
select-opened_account u user security otp t is = elim (Bool-cases user.is_verified) [
  | inl verified ↦ ground (arith, is, verified)
  | inr unverified ↦ ground (
    arith,
    is,
    unverified,
    select-update (is_account u) (is_account user.id) (λ a. record a { is_verified = true })
        t.accounts (λ a. refl),
  )
]

otps-opened :
    (u : ℕ) (user : Account) (security : AccountSecurity) (otp : Otp) (t : AuthStore)
    → (opened u user security otp t).otps ≡ delete (has_otp_id otp.id) t.otps
unfolding opened
otps-opened u user security otp t = ground arith

module _ (bcrypt : Bcrypt) where
  check_code-keeps :
      (u : ℕ) (code : Option ℕ) (s : Server AuthStore)
      → (check_code bcrypt u code s).1.tables ≡ s.tables
  unfolding check_code
  check_code-keeps u none s = refl
  check_code-keeps u (some c) s = ground arith

  -- a call whose guards refuse it for sure, whatever calls fail
  check_code-unlocked :
      (u : ℕ) (code : Option ℕ) (security : AccountSecurity) (s : Server AuthStore)
      → select (security_of u) s.tables.securities ≡ some security
      → security.unlocked ≡ true
      → (e : AuthError) × ((check_code bcrypt u code s).0 ≡ err e)
  unfolding check_code
  check_code-unlocked u none security s locks open_lock = (invalid_code, refl)
  check_code-unlocked u (some c) security s locks open_lock =
      elim (Result-cases (check_code bcrypt u (some c) s).0) [
        | inl failed ↦ failed
        | inr (r, passed) ↦ absurd (ground (arith, locks, open_lock, passed))
      ]

  check_code-wrong :
      (u c : ℕ) (security : AccountSecurity) (otp : Otp) (s : Server AuthStore)
      → select (security_of u) s.tables.securities ≡ some security
      → select (verifies security.id) s.tables.otps ≡ some otp
      → bcrypt.matches otp.code c ≡ false
      → (e : AuthError) × ((check_code bcrypt u (some c) s).0 ≡ err e)
  unfolding check_code
  check_code-wrong u c security otp s locks keeps wrong =
      elim (Result-cases (check_code bcrypt u (some c) s).0) [
        | inl failed ↦ failed
        | inr (r, passed) ↦ absurd (ground (arith, locks, keeps, wrong, passed))
      ]

  -- A code that does not match the one that is kept for the user's lock is refused, whatever calls
  -- fail, and changes nothing: the lock stays closed and the code stays kept.
  pub verify_account_security_refused :
      (u : ℕ) (code : ℕ) (security : AccountSecurity) (otp : Otp) (s : Server AuthStore)
      → select (security_of u) s.tables.securities ≡ some security
      → select (verifies security.id) s.tables.otps ≡ some otp
      → bcrypt.matches otp.code code ≡ false
      → ((e : AuthError) × ((verify_account_security bcrypt u (some code) s).0 ≡ err e))
        × ((verify_account_security bcrypt u (some code) s).1.tables ≡ s.tables)
  unfolding verify_account_security
  verify_account_security_refused u code security otp s locks keeps wrong =
      let (e, refused) = check_code-wrong u code security otp s locks keeps wrong in
      ((e, ground (arith, refused)), ground (arith, refused, check_code-keeps u (some code) s))

  pub verify_account_security-runs :
      (u code : ℕ) (user : Account) (security : AccountSecurity) (otp : Otp) (s : Server AuthStore)
      → ((n : ℕ) → s.calls ≤ n → s.fails n ≡ false)
      → select (is_account u) s.tables.accounts ≡ some user
      → select (security_of u) s.tables.securities ≡ some security
      → security.unlocked ≡ false
      → select (verifies security.id) s.tables.otps ≡ some otp
      → bcrypt.matches otp.code code ≡ true
      → (n : ℕ) × (verify_account_security bcrypt u (some code) s
          ≡ (ok tt, record s { tables = opened u user security otp s.tables; calls = n }))
  unfolding verify_account_security check_code opened
  verify_account_security-runs u code user security otp s up is locks closed keeps right =
      elim (Bool-cases user.is_verified) [
        | inl verified ↦ (
          s.calls + 6,
          ground (
            arith,
            verified,
            is,
            locks,
            closed,
            keeps,
            right,
            up s.calls (omega arith),
            up (s.calls + 1) (omega arith),
            up (s.calls + 2) (omega arith),
            up (s.calls + 3) (omega arith),
            up (s.calls + 4) (omega arith),
            up (s.calls + 5) (omega arith),
          ),
        )
        | inr unverified ↦ (
          s.calls + 7,
          ground (
            arith,
            unverified,
            is,
            locks,
            closed,
            keeps,
            right,
            up s.calls (omega arith),
            up (s.calls + 1) (omega arith),
            up (s.calls + 2) (omega arith),
            up (s.calls + 3) (omega arith),
            up (s.calls + 4) (omega arith),
            up (s.calls + 5) (omega arith),
            up (s.calls + 6) (omega arith),
          ),
        )
      ]

  -- On a server where no call fails, the code that is kept for a user's closed lock opens it for the
  -- time that was asked for, the row of the code is deleted, the user's phone is verified and the
  -- event is recorded; the same code again is refused, with nothing changed.
  pub verify_account_security_opens :
      (u code : ℕ) (user : Account) (security : AccountSecurity) (otp : Otp) (s : Server AuthStore)
      → ((n : ℕ) → s.fails n ≡ false)
      → select (is_account u) s.tables.accounts ≡ some user
      → select (security_of u) s.tables.securities ≡ some security
      → security.unlocked ≡ false
      → select (verifies security.id) s.tables.otps ≡ some otp
      → bcrypt.matches otp.code code ≡ true
      → let verified = verify_account_security bcrypt u (some code) s in
        let again = verify_account_security bcrypt u (some code) verified.1 in
        (verified.0 ≡ ok tt)
        × (count (has_otp_id otp.id) verified.1.tables.otps ≡ 0)
        × (select (is_account u) verified.1.tables.accounts
            ≡ some (record user { is_verified = true }))
        × (verified.1.tables.events ≡ s.tables.events ++ (u ∷ []))
        × (select (security_of u) verified.1.tables.securities
            ≡ some (unlock_security s.tables.now security))
        × ((e : AuthError) × (again.0 ≡ err e))
        × (again.1.tables ≡ verified.1.tables)
  unfolding verify_account_security unlock_security opened
  verify_account_security_opens u code user security otp s up is locks closed keeps right =
      let (n, runs) =
        verify_account_security-runs u code user security otp s (λ n _. up n) is locks closed keeps
          right in
      let t : Server AuthStore = record s {
        tables = opened u user security otp s.tables;
        calls = n;
      } in
      let unlocks = select-opened u user security otp s.tables locks in
      let (e, refused) =
        check_code-unlocked u (some code) (unlock_security s.tables.now security) t unlocks refl in
      let again : verify_account_security bcrypt u (some code) t
          ≡ (err e, (check_code bcrypt u (some code) t).1) =
        ground (arith, refused) in
      (
        ap (λ r. r.0) runs,
        ap (λ r. count (has_otp_id otp.id) r.1.tables.otps) runs
            ∙ (ap (λ l. count (has_otp_id otp.id) l) (otps-opened u user security otp s.tables)
                ∙ count-delete (has_otp_id otp.id) s.tables.otps),
        ap (λ r. select (is_account u) r.1.tables.accounts) runs
            ∙ select-opened_account u user security otp s.tables is,
        ap (λ r. r.1.tables.events) runs,
        ap (λ r. select (security_of u) r.1.tables.securities) runs ∙ unlocks,
        (
          e,
          ap (λ r. (verify_account_security bcrypt u (some code) r.1).0) runs ∙ ap (λ r. r.0) again,
        ),
        ap (λ r. (verify_account_security bcrypt u (some code) r.1).1.tables) runs
            ∙ (ap (λ r. r.1.tables) again
                ∙ (check_code-keeps u (some code) t ∙ sym (ap (λ r. r.1.tables) runs))),
      )
