-- ===== src/Features.antt =====
-- services/features-service: the land marketplace.
pub mod Fees
pub mod Buildings
pub mod Client
pub mod Market
pub mod Profits
