-- ===== src/Ip.antt =====
-- Internet addresses and endpoints: include/iocoro/ip/.
pub mod Decimal
pub mod Endpoint
pub mod Native
