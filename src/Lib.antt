-- ===== src/Lib.antt =====
-- What this library is about: the paid part of the platform, that is, the wallets, the marketplace
-- for land and its profits, which pay through them, and the orders that fill them; what users earn
-- in the challenge, by their levels and from their buildings; and beside it the dynasties and their
-- prizes, follows, the uploads in chunks, the hub of sockets, and the Jalali dates. They are
-- modelled after the services in Go and checked against what those services mean to do.
--
-- The parts and the code:
--
-- Commercial.Wallet: services/commercial-service/internal/repository/wallet_repository.go and
-- internal/service/wallet_service.go. The tables wallets and locked_assets are lists of rows; each
-- method of the two layers is a definition of its name in lower case (deduct_row and add_row are
-- the repository's, deduct_balance and add_balance the service's). Row, Effects, Locks, Unlocks and
-- Service prove what the methods do.
--
-- Features.Client: services/features-service/internal/client/commercial_client.go. A call of the
-- wallet service is a function of the far end's state, sent over a network whose answer to each
-- attempt is a parameter. Port is what the marketplace asks of the wallets, a record of operations
-- and of the laws of the calls that succeed; that a call that errs has moved nothing is
-- KeepsRefused, which is not a law, since the service can err after its UPDATE, but a hypothesis of
-- the theorems that need it. Bank fills it with the wallet service itself, Network with a port
-- behind retries, and Ledger with a function to compute with.
--
-- Features.Fees: services/features-service/internal/constants/config.go and feature_indicators.go.
--
-- Features.Market: services/features-service/internal/service/marketplace_service.go with the
-- repositories that it calls. BuyRequests is RejectBuyRequest, DeleteBuyRequest, UpdateGracePeriod
-- and the refunds; Offers is SendBuyRequest; Sales is AcceptBuyRequest; Purchases is BuyFeature
-- with its three paths; SellRequests is CreateSellRequest and DeleteSellRequest; Accounts is what
-- they read of users and profits. Escrow is the invariant that every lock has an open request.
--
-- Features.Profits: services/features-service/internal/service/profit_service.go with
-- internal/repository/hourly_profit_repository.go. Withdrawals is what GetSingleProfit and
-- GetProfitsByApplication pay, Growth the batches of RunHourlyProfitCalculation.
--
-- Features.Buildings: services/features-service/internal/service/building_service.go with
-- internal/repository/building_repository.go. Information is the validation and the merge of a
-- building's information, with NormalizePersianNumbers of shared/pkg/helpers/numbers.go;
-- Construction and Refunds are BuildFeature, Changes UpdateBuilding and DestroyBuilding, Updates
-- UpdateBuildingInformation.
--
-- Social: services/social-service/internal. Follows is follow_service.go, Challenges the questions
-- of challenge_service.go, Answers what SubmitAnswer does and shows, with the percentages of
-- float64.
--
-- Auth: services/auth-service/internal, that is, RequestAccountSecurity and VerifyAccountSecurity
-- of service/auth_service.go with repository/account_security_repository.go and the statements on
-- users and the cache. Its parts: Unlocking (VerifyAccountSecurity), Rows and Codes (a request and
-- the code it sends), Reuse (a request that fails half-way). bcrypt is a parameter whose comparison
-- takes the hashed code and no other; the random code is an argument, and a phone is what TrimSpace
-- and the pattern of phones make of its text.
--
-- Levels: services/levels-service/internal, that is, activity_service.go, level_service.go,
-- prize_award.go and their repositories. Rows and Reach have the rows and the choice of a level;
-- Awards and Climbing are UpdateActivityScore, Claims is ClaimPrize, Hours the score of the
-- activity.
--
-- Financial: services/financial-service/internal/service/order_service.go, order_payment.go and
-- order_policy.go with their repositories. Store has the tables and the transactions, Orders is
-- CreateOrder and HandleCallback.
--
-- Dynasty: services/dynasty-service/internal with its repositories. Requests is CreateDynasty,
-- SendJoinRequest, GetJoinRequest, AcceptJoinRequest, RejectJoinRequest and DeleteJoinRequest;
-- Replies has the policy of join requests; Prizes is ClaimPrize; Validation is the family
-- validator. Founding, Admission, Replies and Limits prove what they do.
--
-- Uploads: services/storage-service/internal/service/chunk_manager.go and HandleChunkUpload of
-- storage_service.go. A session is a row of the manager's table, with its chunk files in it;
-- Pigeonhole is on lists of distinct indices, Assembly on the file that the chunks make up, Order
-- and Misplaced on the handler.
--
-- Hub: services/websocket-gateway/internal/hub/hub.go. The map of sets of socket ids is a list of
-- entries; Buckets says what the operations do to it, History compares it with the calls that were
-- made, Sessions is the handlers of connections, Rooms the names of the rooms.
--
-- Jalali: shared/pkg/jalali/jalali.go. Split is the arithmetic of a Jalali date, Days the days that
-- the search goes through, Search the way back.
--
-- Common: tables as lists with the SQL statements over them, and Common.Server, in which a handler
-- is an action over tables that are kept where a later call fails; which calls fail is a parameter.
--
-- How the parts meet: the marketplace, the profits, the buildings, the challenge, the levels and
-- the orders call the wallets through the port, which is a parameter of their definitions; the
-- credits of a prize are recorded as what the wallets are asked for. The other parts share the
-- tables and the server of Common.
--
-- Bounds: the retries are a recursion on the attempts left, which default_max_retries sets to 3;
-- the number is a parameter of the definition. The search for a day has fuel for 36 months of 31
-- days and the round that ends it, which is proved to be enough; write_digits has the 20 places of
-- the source's buffer as its fuel, which is proved to be enough for 64 bits; run_batches has the
-- 1000 batches of the source. unit_of has 84 doublings, enough for counts of votes below 2 ^ 31. No
-- other definition has fuel.
--
-- Numbers: an amount or a price is a whole number of quanta, and a wallet's quantum is a twentieth
-- of a price's, so that the fee of 5% and the bonus of one half are exact; rates are whole numbers.
-- The rounding of float64 and of the decimal columns, negative amounts and amounts beyond a
-- column's range are not modelled. A status of an order is an int32 as read; a ResCode text is the
-- text "0", another number, or no number.
--
-- Not modelled: two handlers at the same time, and what MySQL does then; the ledger rows,
-- notifications, events, metrics and logs that handlers write besides; a missing commercial client,
-- but for SendBuyRequest and the challenge; texts in place of a column name that name another
-- column. The gateway of payments, the referral commission and the campaigns of limited land are
-- parameters. The upload's file names, the database's products for a prize, the token check of a
-- socket, the standard library's TrimSpace and url.Parse, the answers of auth-service and the
-- choice of a random question are parameters too. A text of a request that is read as a number is
-- that number. The permissions of children, the change of a dynasty's land, the rest of auth-
-- service, and the other services (calendar, notifications, support, training and the gateway of
-- HTTP) are left out.
pub mod Auth
pub mod Commercial
pub mod Common
pub mod Dynasty
pub mod Features
pub mod Financial
pub mod Hub
pub mod Jalali
pub mod Levels
pub mod Social
pub mod Uploads
