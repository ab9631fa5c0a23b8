-- ===== src/Auth/Codes.antt =====
-- services/auth-service/internal/service/auth_service.go: RequestAccountSecurity, and what its code
-- opens.
use metaverse_rang_microserv.Common.{
  ℕ, ◌+◌, ◌*◌, ◌≤◌, ◌≡◌, ◌≢◌, refl, sym, ap, ◌∙◌, true, false, some, [], ◌∷◌, ◌++◌, arith,
  Bool-cases, inl, inr,
}
use metaverse_rang_microserv.Common.Table.{select}
use metaverse_rang_microserv.Common.Server.{Server, ok}
use metaverse_rang_microserv.Auth.{
  PhoneText, Account, AccountSecurity, Otp, AuthStore, Bcrypt, is_account, security_of, verifies,
  unlock_security, enforce_rate_limit, choose_phone, dispatch_otp, request_account_security,
  verify_account_security,
}
use metaverse_rang_microserv.Auth.Unlocking.{
  verify_account_security_opens, verify_account_security_refused,
}
use metaverse_rang_microserv.Auth.Rows.{lock_account-runs, upsert_otp-runs}

module _ (bcrypt : Bcrypt) where
  -- what a request leaves: the lock, closed, and the code that opens it
  request_account_security-runs :
      (u minutes code phone : ℕ) (text : PhoneText) (user : Account) (s : Server AuthStore)
      → ((n : ℕ) → s.fails n ≡ false)
      → 5 ≤ minutes
      → minutes ≤ 60
      → select (is_account u) s.tables.accounts ≡ some user
      → user.phone ≡ some phone
      → user.is_verified ≡ true
      → (security : AccountSecurity) × ((otp : Otp) × ((t : Server AuthStore)
            × (request_account_security bcrypt false true u minutes text code s ≡ (ok tt, t))
            × (t.fails ≡ s.fails)
            × (t.tables.accounts ≡ s.tables.accounts)
            × (t.tables.sent ≡ s.tables.sent ++ ((phone, code) ∷ []))
            × (t.tables.now ≡ s.tables.now)
            × (select (security_of u) t.tables.securities ≡ some security)
            × (security.unlocked ≡ false)
            × (security.length ≡ minutes * 60)
            × (select (verifies security.id) t.tables.otps ≡ some otp)
            × (otp.code ≡ bcrypt.hash code)))
  unfolding request_account_security enforce_rate_limit choose_phone dispatch_otp
  request_account_security-runs u minutes code phone text user s up least most is has verified =
      let read : Server AuthStore = record s { calls = s.calls + 1 } in
      let (security, (rows, (next, locks, at, closed, lasts))) =
        lock_account-runs u (minutes * 60) read up in
      let locked : Server AuthStore = record read {
        tables = record s.tables { securities = rows; next_security_id = next };
        calls = s.calls + 1 + 2;
      } in
      let (otp, (codes, (next_otp, keeps, kept, hashed))) =
        upsert_otp-runs security.id (bcrypt.hash code) locked up in
      (
        security,
        (
          otp,
          (
            record locked {
              tables = record locked.tables {
                otps = codes;
                next_otp_id = next_otp;
                sent = s.tables.sent ++ ((phone, code) ∷ []);
              };
              calls = s.calls + 1 + 2 + 2 + 1;
            },
            ground (
              arith,
              least,
              most,
              is,
              has,
              verified,
              locks,
              keeps,
              up s.calls,
              up (s.calls + 1 + 2 + 2),
            ),
            refl,
            refl,
            refl,
            refl,
            at,
            closed,
            lasts,
            kept,
            hashed,
          ),
        ),
      )

  -- On a server where no call fails, a user with a verified phone who asks for 5 to 60 minutes, where
  -- the rate limit is off, is sent a code there; that code then opens the lock for those minutes, and
  -- a call with any other code changes no table.
  pub request_account_security-verify_account_security :
      (u minutes code phone : ℕ) (text : PhoneText) (user : Account) (s : Server AuthStore)
      → ((n : ℕ) → s.fails n ≡ false)
      → 5 ≤ minutes
      → minutes ≤ 60
      → select (is_account u) s.tables.accounts ≡ some user
      → user.phone ≡ some phone
      → user.is_verified ≡ true
      → let requested = request_account_security bcrypt false true u minutes text code s in
        let verified = verify_account_security bcrypt u (some code) requested.1 in
        (requested.0 ≡ ok tt)
        × (requested.1.tables.sent ≡ s.tables.sent ++ ((phone, code) ∷ []))
        × (verified.0 ≡ ok tt)
        × ((security : AccountSecurity) × (select (security_of u) verified.1.tables.securities
              ≡ some security)
            × (security.unlocked ≡ true)
            × (security.until ≡ some (s.tables.now + minutes * 60)))
        × ((other : ℕ)
            → other ≢ code
            → (verify_account_security bcrypt u (some other) requested.1).1.tables
              ≡ requested.1.tables)
  unfolding unlock_security
  request_account_security-verify_account_security u minutes code phone text user s up least most is
        has verified =
      let (
        security,
        (otp, (t, runs, fails, accounts, sent, now, locks, closed, lasts, keeps, hashed)),
      ) =
        request_account_security-runs u minutes code phone text user s up least most is has
          verified in
      let no_fails : (n : ℕ) → t.fails n ≡ false = λ n. ap (λ f. f n) fails ∙ up n in
      let found : select (is_account u) t.tables.accounts ≡ some user =
        ap (λ l. select (is_account u) l) accounts ∙ is in
      let right : bcrypt.matches otp.code code ≡ true =
        ap (λ h. bcrypt.matches h code) hashed ∙ bcrypt.matches_hash code in
      let (verifies_ok, _, _, _, opens, _, _) =
        verify_account_security_opens bcrypt u code user security otp t no_fails found locks closed
          keeps right in
      (
        ap (λ r. r.0) runs,
        ap (λ r. r.1.tables.sent) runs ∙ sent,
        ap (λ r. (verify_account_security bcrypt u (some code) r.1).0) runs ∙ verifies_ok,
        (
          unlock_security t.tables.now security,
          ap
                (λ r.
                  select (security_of u)
                    (verify_account_security bcrypt u (some code) r.1).1.tables.securities)
                runs
              ∙ opens,
          refl,
          ap some (cc (now, lasts)),
        ),
        λ other differs.
            ap (λ r. (verify_account_security bcrypt u (some other) r.1).1.tables) runs
            ∙ ((verify_account_security_refused bcrypt u other security otp t locks keeps
                  (elim (Bool-cases (bcrypt.matches otp.code other)) [
                    | inl matches ↦ absurd (
                        differs (
                          sym (
                            bcrypt.matches_only code other
                              (ap (λ h. bcrypt.matches h other) (sym hashed) ∙ matches))))
                    | inr wrong ↦ wrong
                  ])).1
                ∙ ap (λ r. r.1.tables) (sym runs)),
      )
