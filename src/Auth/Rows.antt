-- ===== src/Auth/Rows.antt =====
-- services/auth-service/internal/repository/account_security_repository.go: the rows that a request
-- for a code writes.
use metaverse_rang_microserv.Common.{
  ℕ, ◌+◌, ◌≡◌, refl, false, none, some, List, [], ◌∷◌, ◌++◌, arith, Option-cases, inl, inr,
}
use metaverse_rang_microserv.Common.Table.{select, update}
use metaverse_rang_microserv.Common.Table.Laws.{select-update, select-append_new, select-none-count}
use metaverse_rang_microserv.Common.Server.{Server, ok}
use metaverse_rang_microserv.Auth.{
  AccountSecurity, Otp, AuthStore, security_of, has_security_id, verifies, has_otp_id,
  lock_security, insert_security, write_security, insert_otp, write_otp, lock_account, upsert_otp,
}

pub lock_account-runs :
    (u seconds : ℕ) (s : Server AuthStore)
    → ((n : ℕ) → s.fails n ≡ false)
    → (security : AccountSecurity) × ((rows : List AccountSecurity) × ((next : ℕ) × (lock_account u
              seconds s
            ≡ (
              ok security.id,
              record s {
                tables = record s.tables { securities = rows; next_security_id = next };
                calls = s.calls + 2;
              },
            ))
          × (select (security_of u) rows ≡ some security)
          × (security.unlocked ≡ false)
          × (security.length ≡ seconds)))
unfolding lock_account insert_security write_security lock_security
lock_account-runs u seconds s up =
    elim (Option-cases (select (security_of u) s.tables.securities)) [
      | inl missing ↦
          let row : AccountSecurity = record {
            id = s.tables.next_security_id;
            user_id = u;
            unlocked = false;
            until = none;
            length = seconds;
          } in
          (
            row,
            (
              s.tables.securities ++ (row ∷ []),
              (
                s.tables.next_security_id + 1,
                ground (arith, missing, up s.calls, up (s.calls + 1)),
                select-append_new (security_of u) s.tables.securities row
                    (select-none-count (security_of u) s.tables.securities missing) (ground arith),
                refl,
                refl,
              ),
            ),
          )
      | inr (old, at) ↦
          let closes : AccountSecurity → AccountSecurity =
            λ r. record r { unlocked = false; until = none; length = seconds } in
          (
            closes old,
            (
              update (has_security_id old.id) closes s.tables.securities,
              (
                s.tables.next_security_id,
                ground (arith, at, up s.calls, up (s.calls + 1)),
                ground (
                  arith,
                  at,
                  select-update (security_of u) (has_security_id old.id) closes s.tables.securities
                      (λ r. refl),
                ),
                refl,
                refl,
              ),
            ),
          )
    ]

pub upsert_otp-runs :
    (id code : ℕ) (s : Server AuthStore)
    → ((n : ℕ) → s.fails n ≡ false)
    → (otp : Otp) × ((rows : List Otp) × ((next : ℕ) × (upsert_otp id code s ≡ (
      ok tt,
      record s {
        tables = record s.tables { otps = rows; next_otp_id = next };
        calls = s.calls + 2;
      },
    ))
          × (select (verifies id) rows ≡ some otp)
          × (otp.code ≡ code)))
unfolding upsert_otp insert_otp write_otp
upsert_otp-runs id code s up = elim (Option-cases (select (verifies id) s.tables.otps)) [
  | inl missing ↦
      let row : Otp = record { id = s.tables.next_otp_id; verifiable_id = id; code = code } in
      (
        row,
        (
          s.tables.otps ++ (row ∷ []),
          (
            s.tables.next_otp_id + 1,
            ground (arith, missing, up s.calls, up (s.calls + 1)),
            select-append_new (verifies id) s.tables.otps row
                (select-none-count (verifies id) s.tables.otps missing) (ground arith),
            refl,
          ),
        ),
      )
  | inr (old, at) ↦
      let sets : Otp → Otp = λ o. record o { code = code } in
      (
        sets old,
        (
          update (has_otp_id old.id) sets s.tables.otps,
          (
            s.tables.next_otp_id,
            ground (arith, at, up s.calls, up (s.calls + 1)),
            ground (
              arith,
              at,
              select-update (verifies id) (has_otp_id old.id) sets s.tables.otps (λ o. refl),
            ),
            refl,
          ),
        ),
      )
]
