-- ===== src/Features/Client/Tests.antt =====
-- The calls of the wallet service at concrete inputs.
use metaverse_rang_microserv.Common.{ℕ, ◌+◌, ◌≢◌, Bool, true, false, arith, ◌==◌}
use metaverse_rang_microserv.Features.Client.{Delivery, Answer, Link, retry_with_backoff}
use metaverse_rang_microserv.Features.Client.Retry.{AtMostOnce, retry_with_backoff-AtMostOnce}

-- a wallet that counts its calls
abbrev counted : ℕ → Bool × ℕ
counted n = (true, n + 1)

-- the first attempt's request is lost
abbrev slow_link : Link ℕ
slow_link = record {
  remote = 0;
  delivery = λ i. elim (i == 0) [ true ↦ Delivery.request_lost | false ↦ Delivery.delivered ];
  sends = 0;
}

-- the first attempt's reply is lost
abbrev lossy_link : Link ℕ
lossy_link = record {
  remote = 0;
  delivery = λ i. elim (i == 0) [ true ↦ Delivery.reply_lost | false ↦ Delivery.delivered ];
  sends = 0;
}

no_reply_lost : (i : ℕ) → slow_link.delivery i ≢ Delivery.reply_lost
no_reply_lost i e = ground arith

no_reply_yet : (b : Bool) → Answer.no_attempt ≢ Answer.reply b
no_reply_yet b e = cc

retry_example : AtMostOnce counted 0 (retry_with_backoff 3 Answer.no_attempt counted slow_link)
retry_example =
    retry_with_backoff-AtMostOnce counted 3 Answer.no_attempt slow_link no_reply_lost no_reply_yet

abbrev asked : ℕ
asked = 5
