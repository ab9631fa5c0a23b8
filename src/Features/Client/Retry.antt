-- ===== src/Features/Client/Retry.antt =====
-- What a retried call does, by what the network does to its attempts.
use metaverse_rang_microserv.Common.{
  ℕ, zero, suc, ◌+◌, ◌<◌, ◌≡◌, refl, sym, ◌≢◌, ◌⊎◌, Bool, true, false, some, inl, inr, arith,
}
use metaverse_rang_microserv.Commercial.Wallet.{Asset}
use metaverse_rang_microserv.Features.Client.{
  Delivery, Answer, Link, retry_with_backoff, is_success, call_wallet, check_balance,
}

module _ {W : Type 0} (call : W → Bool × W) where
  -- What a retried call has done: it was made once and its reply came back, or it was not made and
  -- the caller has an error.
  abbrev pub AtMostOnce : W → Answer × Link W → Type 0
  AtMostOnce w (Answer.reply b, l) = (b ≡ (call w).0) × (l.remote ≡ (call w).1)
  AtMostOnce w (Answer.service_unavailable, l) = l.remote ≡ w
  AtMostOnce w (Answer.validation_error, l) = l.remote ≡ w
  AtMostOnce w (Answer.no_attempt, l) = l.remote ≡ w

  -- Where no reply is lost, a call that is retried any number of times ends with the reply of the one
  -- time that it was made, or with an error and was not made at all.
  pub retry_with_backoff-AtMostOnce :
      (n : ℕ) (e : Answer) (l : Link W)
      → ((i : ℕ) → l.delivery i ≢ Delivery.reply_lost)
      → ((b : Bool) → e ≢ Answer.reply b)
      → AtMostOnce l.remote (retry_with_backoff n e call l)
  unfolding retry_with_backoff
  retry_with_backoff-AtMostOnce zero (Answer.reply b) l kept fresh = absurd (fresh b refl)
  retry_with_backoff-AtMostOnce zero _ l kept fresh = refl
  retry_with_backoff-AtMostOnce (suc n) e l kept fresh = ground (
    arith,
    kept l.sends,
    retry_with_backoff-AtMostOnce n Answer.service_unavailable (record l { sends = l.sends + 1 })
        kept (λ b. cc),
  )

  -- The same of a call with a nil error or not.
  pub call_wallet_once :
      (n : ℕ) (l : Link W)
      → ((i : ℕ) → l.delivery i ≢ Delivery.reply_lost)
      → (((call_wallet n call l).0 ≡ true)
          × ((call l.remote).0 ≡ true)
          × ((call_wallet n call l).1.remote ≡ (call l.remote).1))
        ⊎ (((call_wallet n call l).0 ≡ false)
            × ((call l.remote).0 ≡ false)
            × ((call_wallet n call l).1.remote ≡ (call l.remote).1))
        ⊎ (((call_wallet n call l).0 ≡ false) × ((call_wallet n call l).1.remote ≡ l.remote))
  unfolding call_wallet
  call_wallet_once n l kept =
      ended (retry_with_backoff n Answer.no_attempt call l)
        (retry_with_backoff-AtMostOnce n Answer.no_attempt l kept (λ b. cc))
    where
      ended :
          (r : Answer × Link W)
          → AtMostOnce l.remote r
          → ((is_success r.0 ≡ true)
              × ((call l.remote).0 ≡ true)
              × (r.1.remote ≡ (call l.remote).1))
            ⊎ ((is_success r.0 ≡ false)
                × ((call l.remote).0 ≡ false)
                × (r.1.remote ≡ (call l.remote).1))
            ⊎ ((is_success r.0 ≡ false) × (r.1.remote ≡ l.remote))
      ended (Answer.reply true, l') (e, m) = inl (refl, sym e, m)
      ended (Answer.reply false, l') (e, m) = inr (inl (refl, sym e, m))
      ended (Answer.service_unavailable, l') m = inr (inr (refl, m))
      ended (Answer.validation_error, l') m = inr (inr (refl, m))
      ended (Answer.no_attempt, l') m = inr (inr (refl, m))

  -- The retries carry no idempotency key: where the first reply is lost and the second attempt is
  -- delivered, with two attempts or more, the call has been made twice, the second time on what the
  -- first left, and the caller has the second's answer alone.
  pub call_wallet_twice :
      (n : ℕ) (l : Link W)
      → l.delivery l.sends ≡ Delivery.reply_lost
      → l.delivery (l.sends + 1) ≡ Delivery.delivered
      → let w = (call l.remote).1 in
        ((call_wallet (suc (suc n)) call l).0 ≡ (call w).0)
        × ((call_wallet (suc (suc n)) call l).1.remote ≡ (call w).1)
  unfolding call_wallet
  call_wallet_twice n l lost next = ground (arith)

-- `CheckBalance` refuses every amount above zero, of whatever asset and whatever the wallet holds:
-- it reads each balance as 0. An amount of zero passes for the five assets of the switch.
pub check_balance_refuses :
    (a : Asset) (wallet : ℕ) (x : ℕ)
    → ((0 < x) → check_balance a (some wallet) x ≡ false)
      × ((check_balance a (some wallet) x ≡ true) → x ≡ 0)
unfolding check_balance
check_balance_refuses a wallet x = (λ h. ground arith, λ h. ground arith)
