-- ===== src/Features/Fees.antt =====
-- services/features-service/internal/constants: the fee, the kinds of land and their status codes.
-- A price is a number of price quanta; a wallet amount is a number of quanta twenty times as fine,
-- so that 5% of a price is a whole number of them.
use metaverse_rang_microserv.Common.{ℕ, ◌+◌, ◌-◌, ◌*◌, ◌/◌, ◌≡◌, Bool, true, false, arith}
use metaverse_rang_microserv.Commercial.Wallet.{Asset}

abbrev pub rgb_fee_percent : ℕ
rgb_fee_percent = 5

abbrev pub default_public_pricing_limit : ℕ
default_public_pricing_limit = 80

abbrev pub default_under18_pricing_limit : ℕ
default_under18_pricing_limit = 110

-- the wallet amount of a price
unfoldable pub to_amount : ℕ → ℕ
to_amount price = price * 20

unfoldable pub calculate_fee : ℕ → ℕ
unfolding to_amount
calculate_fee price = to_amount price * rgb_fee_percent / 100

unfoldable pub calculate_buyer_charge : ℕ → ℕ
unfolding to_amount
calculate_buyer_charge price = to_amount price + to_amount price * rgb_fee_percent / 100

unfoldable pub calculate_seller_payment : ℕ → ℕ
unfolding to_amount
calculate_seller_payment price = to_amount price - to_amount price * rgb_fee_percent / 100

unfoldable pub calculate_platform_fee : ℕ → ℕ
unfolding to_amount
calculate_platform_fee price = to_amount price * rgb_fee_percent / 100 * 2

-- the kinds of land that have a color, and any other
pub data Karbari : Type 0 where
  maskoni tejari amozeshi other : Karbari

unfoldable pub get_color : Karbari → Asset
get_color Karbari.amozeshi = Asset.blue
get_color Karbari.tejari = Asset.red
get_color Karbari.maskoni = Asset.yellow
get_color Karbari.other = Asset.other

-- the status codes, by kind of land; `unknown` is the empty text and any other code
pub data Status : Type 0 where
  sold_and_priced sold_and_not_priced not_priced priced : Karbari → Status
  pre_bought not_allowed_to_be_sold trading_limited : Karbari → Status
  unknown : Status

unfoldable pub change_status_to_sold_and_priced : Karbari → Status
change_status_to_sold_and_priced Karbari.maskoni = Status.sold_and_priced Karbari.maskoni
change_status_to_sold_and_priced Karbari.tejari = Status.sold_and_priced Karbari.tejari
change_status_to_sold_and_priced Karbari.amozeshi = Status.sold_and_priced Karbari.amozeshi
change_status_to_sold_and_priced Karbari.other = Status.unknown

unfoldable pub change_status_to_sold_and_not_priced : Karbari → Status
change_status_to_sold_and_not_priced Karbari.maskoni = Status.sold_and_not_priced Karbari.maskoni
change_status_to_sold_and_not_priced Karbari.tejari = Status.sold_and_not_priced Karbari.tejari
change_status_to_sold_and_not_priced Karbari.amozeshi = Status.sold_and_not_priced Karbari.amozeshi
change_status_to_sold_and_not_priced Karbari.other = Status.unknown

unfoldable pub is_limited_feature : Status → Bool
is_limited_feature (Status.trading_limited Karbari.other) = false
is_limited_feature (Status.trading_limited _) = true
is_limited_feature _ = false

unfoldable pub is_not_allowed_to_be_sold : Status → Bool
is_not_allowed_to_be_sold (Status.not_allowed_to_be_sold Karbari.other) = false
is_not_allowed_to_be_sold (Status.not_allowed_to_be_sold _) = true
is_not_allowed_to_be_sold _ = false

-- What the buyer is charged is what the seller and the platform are paid, to the last quantum; the
-- three are 105%, 95% and 10% of the price.
pub fees_balance :
    (price : ℕ)
    → (calculate_buyer_charge price ≡ calculate_seller_payment price + calculate_platform_fee price)
      × (calculate_platform_fee price ≡ 2 * calculate_fee price)
      × (calculate_buyer_charge price * 100 ≡ to_amount price * 105)
      × (calculate_seller_payment price * 100 ≡ to_amount price * 95)
unfolding calculate_buyer_charge calculate_seller_payment calculate_platform_fee calculate_fee
fees_balance price = (omega arith, omega arith, omega arith, omega arith)
