-- ===== src/Domain.antt =====
-- internal/domain: the data that the layers exchange.
pub mod Appraisal
pub mod Events
pub mod Errors
pub mod Floats
pub mod Apartment
