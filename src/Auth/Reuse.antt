-- ===== src/Auth/Reuse.antt =====
-- services/auth-service/internal/service/auth_service.go: RequestAccountSecurity where the code cannot
-- be kept.
use metaverse_rang_microserv.Common.{
  ℕ, ◌+◌, ◌*◌, ◌≤◌, ◌≡◌, ◌≢◌, refl, ap, ◌∙◌, true, false, not, ◌&&◌, none, some, arith, ◌==◌,
  Option-cases, inl, inr,
}
use metaverse_rang_microserv.Common.Table.{select, count}
use metaverse_rang_microserv.Common.Table.Laws.{select-update}
use metaverse_rang_microserv.Common.Server.{Server, ok, err}
use metaverse_rang_microserv.Auth.{
  mobile, Account, AccountSecurity, Otp, AuthStore, Bcrypt, auth_db, is_account, security_of,
  has_security_id, verifies, same_phone, lock_security, write_security, update_phone,
  unlock_security, enforce_rate_limit, lock_account, take_phone, choose_phone, upsert_otp,
  request_account_security, verify_account_security,
}
use metaverse_rang_microserv.Auth.Unlocking.{
  select-opened, select-opened_account, verify_account_security-runs,
}

-- the tables after a request for the phone `p` whose code could not be kept
unfoldable phone_changed : ℕ → ℕ → AccountSecurity → ℕ → AuthStore → AuthStore
unfolding update_phone write_security lock_security
phone_changed u seconds security p t =
    update_phone u p (write_security (lock_security seconds security) t)

take_phone-runs :
    (p : ℕ) (user : Account) (s : Server AuthStore)
    → same_phone user.phone p ≡ false
    → count (λ a. not (a.id == user.id) && same_phone a.phone p) s.tables.accounts ≡ 0
    → s.fails s.calls ≡ false
    → s.fails (s.calls + 1) ≡ false
    → take_phone user p s
      ≡ (ok (some p), record s { tables = update_phone user.id p s.tables; calls = s.calls + 2 })
unfolding take_phone
take_phone-runs p user s other free first second = ground (arith, other, free, first, second)

choose_phone-runs :
    (p : ℕ) (user : Account) (s : Server AuthStore)
    → user.is_verified ≡ false
    → choose_phone user (mobile p) s ≡ take_phone user p s
unfolding choose_phone
choose_phone-runs p user s unverified = elim (Option-cases user.phone) [
  | inl missing ↦ cc (missing)
  | inr (q, at) ↦ cc (at, unverified)
]

select-phone_changed :
    (u seconds p : ℕ) (user : Account) (security : AccountSecurity) (t : AuthStore)
    → select (is_account u) t.accounts ≡ some user
    → select (is_account u) (phone_changed user.id seconds security p t).accounts
      ≡ some (record user { phone = some p })
unfolding phone_changed write_security update_phone
select-phone_changed u seconds p user security t is = ground (
  arith,
  is,
  select-update (is_account u) (is_account user.id) (λ a. record a { phone = some p }) t.accounts
      (λ a. refl),
)

select-phone_changed_lock :
    (u seconds p : ℕ) (user : Account) (security : AccountSecurity) (t : AuthStore)
    → select (security_of u) t.securities ≡ some security
    → select (security_of u) (phone_changed user.id seconds security p t).securities
      ≡ some (lock_security seconds security)
unfolding phone_changed write_security update_phone lock_security
select-phone_changed_lock u seconds p user security t locks = ground (
  arith,
  locks,
  select-update (security_of u) (has_security_id security.id)
      (λ s. record s { unlocked = false; until = none; length = seconds }) t.securities (λ s. refl),
)

module _ (bcrypt : Bcrypt) where
  request_account_security_fails :
      (u minutes code p : ℕ) (user : Account) (security : AccountSecurity) (s : Server AuthStore)
      → ((n : ℕ) → s.fails n ≡ (n == s.calls + 5))
      → 5 ≤ minutes
      → minutes ≤ 60
      → select (is_account u) s.tables.accounts ≡ some user
      → user.is_verified ≡ false
      → same_phone user.phone p ≡ false
      → count (λ a. not (a.id == user.id) && same_phone a.phone p) s.tables.accounts ≡ 0
      → select (security_of u) s.tables.securities ≡ some security
      → request_account_security bcrypt false true u minutes (mobile p) code s ≡ (
        err auth_db,
        record s {
          tables = phone_changed user.id (minutes * 60) security p s.tables;
          calls = s.calls + 6;
        },
      )
  unfolding request_account_security enforce_rate_limit lock_account upsert_otp phone_changed
      write_security lock_security update_phone
  request_account_security_fails u minutes code p user security s fails least most is unverified
        other free locks =
      let locked : Server AuthStore = record s {
        tables = write_security (lock_security (minutes * 60) security) s.tables;
        calls = s.calls + 3;
      } in
      let at : (n : ℕ) → n ≢ s.calls + 5 → s.fails n ≡ false =
        λ n differs. ground (arith, fails n, differs) in
      ground (
        arith,
        least,
        most,
        is,
        locks,
        at s.calls (omega arith),
        at (s.calls + 1) (omega arith),
        at (s.calls + 2) (omega arith),
        fails (s.calls + 5),
        choose_phone-runs p user locked unverified
            ∙ take_phone-runs p user locked other free (at (s.calls + 3) (omega arith))
                (at (s.calls + 3 + 1) (omega arith)),
      )

  -- Where a request for a new phone cannot read the codes that are kept, it errs and sends no code,
  -- but the phone is changed; the code that was sent before, to another phone, then opens the lock
  -- and marks the new phone as verified.
  pub request_account_security_reuses :
      (u minutes code p old : ℕ) (user : Account) (security : AccountSecurity) (otp : Otp)
      (s : Server AuthStore)
      → ((n : ℕ) → s.fails n ≡ (n == s.calls + 5))
      → 5 ≤ minutes
      → minutes ≤ 60
      → select (is_account u) s.tables.accounts ≡ some user
      → user.is_verified ≡ false
      → same_phone user.phone p ≡ false
      → count (λ a. not (a.id == user.id) && same_phone a.phone p) s.tables.accounts ≡ 0
      → select (security_of u) s.tables.securities ≡ some security
      → select (verifies security.id) s.tables.otps ≡ some otp
      → bcrypt.matches otp.code old ≡ true
      → let requested = request_account_security bcrypt false true u minutes (mobile p) code s in
        let verified = verify_account_security bcrypt u (some old) requested.1 in
        (requested.0 ≡ err auth_db)
        × (requested.1.tables.sent ≡ s.tables.sent)
        × (verified.0 ≡ ok tt)
        × ((locked : AccountSecurity) × (select (security_of u) verified.1.tables.securities
              ≡ some locked)
            × (locked.unlocked ≡ true))
        × (select (is_account u) verified.1.tables.accounts
            ≡ some (record user { phone = some p; is_verified = true }))
  unfolding phone_changed write_security lock_security update_phone unlock_security
  request_account_security_reuses u minutes code p old user security otp s fails least most is
        unverified other free locks keeps matches =
      let failed =
        request_account_security_fails u minutes code p user security s fails least most is
          unverified other free locks in
      let t : AuthStore = phone_changed user.id (minutes * 60) security p s.tables in
      let renamed : Account = record user { phone = some p } in
      let closed : AccountSecurity = lock_security (minutes * 60) security in
      let found = select-phone_changed u (minutes * 60) p user security s.tables is in
      let locked = select-phone_changed_lock u (minutes * 60) p user security s.tables locks in
      let (n, runs) =
        verify_account_security-runs bcrypt u old renamed closed otp
          (record s { tables = t; calls = s.calls + 6 }) (λ n least. ground (arith, fails n, least))
          found locked refl keeps matches in
      let verified = ap (λ r. verify_account_security bcrypt u (some old) r.1) failed ∙ runs in
      (
        ap (λ r. r.0) failed,
        ap (λ r. r.1.tables.sent) failed,
        ap (λ r. r.0) verified,
        (
          unlock_security t.now closed,
          ap (λ r. select (security_of u) r.1.tables.securities) verified
              ∙ select-opened u renamed closed otp t locked,
          refl,
        ),
        ap (λ r. select (is_account u) r.1.tables.accounts) verified
            ∙ select-opened_account u renamed closed otp t found,
      )
