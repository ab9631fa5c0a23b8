-- ===== src/Features/Client.antt =====
-- services/features-service/internal/client/commercial_client.go: the calls of the wallet service.
pub mod Port
pub mod Retry
pub mod Bank
pub mod Network
pub mod Ledger
mod Tests
use metaverse_rang_microserv.Common.{
  ℕ, zero, suc, ◌+◌, Bool, true, false, ◌&&◌, Option, none, some, leb, if◌then◌else◌,
}
use metaverse_rang_microserv.Commercial.Wallet.{Asset}

-- What becomes of one attempt on the network. A reply that is lost is an Unavailable or a
-- DeadlineExceeded error to the caller, as a request that is lost, but the call has been made.
pub data Delivery : Type 0 where
  delivered request_lost reply_lost refused : Delivery

-- How a call ends for its caller: the reply's Success, or an error by its kind. Without an attempt the
-- error is nil and there is no reply, which the caller does not take for a success; `maxRetries` is 3.
pub data Answer : Type 0 where
  reply : Bool → Answer
  service_unavailable validation_error : Answer
  no_attempt : Answer

-- The wallet service at the far end, and the network's answer to each attempt, by its number.
pub record Link (W : Type 0) : Type 0 where
  pub remote : W
  pub delivery : ℕ → Delivery
  pub sends : ℕ

pub default_max_retries : ℕ
default_max_retries = 3

-- `resp.Success` with no error
unfoldable pub is_success : Answer → Bool
is_success (Answer.reply true) = true
is_success _ = false

module _ {W : Type 0} where
  abbrev arrive : (W → Bool × W) → Link W → Link W
  arrive call l = record l { remote = (call l.remote).1; sends = l.sends + 1 }

  abbrev miss : Link W → Link W
  miss l = record l { sends = l.sends + 1 }

  -- `retryWithBackoff`, on the attempts left, with the last error; the waits are left out.
  unfoldable pub retry_with_backoff : ℕ → Answer → (W → Bool × W) → Link W → Answer × Link W
  retry_with_backoff zero last_err call l = (last_err, l)
  retry_with_backoff (suc n) last_err call l = elim (l.delivery l.sends) [
    | Delivery.delivered ↦ (Answer.reply (call l.remote).0, arrive call l)
    | Delivery.request_lost ↦ retry_with_backoff n Answer.service_unavailable call (miss l)
    | Delivery.reply_lost ↦ retry_with_backoff n Answer.service_unavailable call (arrive call l)
    | Delivery.refused ↦ (Answer.validation_error, miss l)
  ]

  -- `AddBalance` and `DeductBalance`, over the handler's call: true for a nil error.
  unfoldable pub call_wallet : ℕ → (W → Bool × W) → Link W → Bool × Link W
  unfolding retry_with_backoff is_success
  call_wallet max_retries call l =
      let (a, l') = retry_with_backoff max_retries Answer.no_attempt call l in (is_success a, l')

-- `parseWalletString`
unfoldable pub parse_wallet_string : ℕ → ℕ
parse_wallet_string s = 0

-- the `switch` of `CheckBalance`; `wallet` is the balance that the reply shows
unfoldable pub checked_balance : Asset → ℕ → Option ℕ
unfolding parse_wallet_string
checked_balance Asset.psc wallet = some (parse_wallet_string wallet)
checked_balance Asset.irr wallet = some (parse_wallet_string wallet)
checked_balance Asset.red wallet = some (parse_wallet_string wallet)
checked_balance Asset.blue wallet = some (parse_wallet_string wallet)
checked_balance Asset.yellow wallet = some (parse_wallet_string wallet)
checked_balance _ wallet = none

-- `CheckBalance` on the answer of `GetWallet`: no wallet, or the balance shown; false on an error.
unfoldable pub check_balance : Asset → Option ℕ → ℕ → Bool
unfolding checked_balance
check_balance asset none required_amount = false
check_balance asset (some wallet) required_amount = elim (checked_balance asset wallet) [
  | none ↦ false
  | some balance ↦ leb required_amount balance
]
