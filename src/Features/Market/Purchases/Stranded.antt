-- ===== src/Features/Market/Purchases/Stranded.antt =====
-- What a purchase does to the open requests for the land.
use metaverse_rang_microserv.Common.Server.{Server}
use metaverse_rang_microserv.Features.Market.{Market}
