-- ===== src/Financial.antt =====
-- services/financial-service: orders and their payment.
pub mod Store
pub mod Orders
