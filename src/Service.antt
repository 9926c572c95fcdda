-- ===== src/Service.antt =====
-- The HTTP service of src/service, as far as it decides who may change a campaign.
pub mod Leases
pub mod Registry
pub mod Auth
