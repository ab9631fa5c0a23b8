-- ===== src/Features/Market/Sales/Runs.antt =====
-- An accepted request is sold where no call fails.
use metaverse_rang_microserv.Common.Server.{Server}
use metaverse_rang_microserv.Features.Market.{Market}
