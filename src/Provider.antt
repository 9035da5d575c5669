-- ===== src/Provider.antt =====
-- internal/provider: the delivery errors, the registry, and the classification of each backend.
pub mod Errors
pub mod Registry
pub mod Twilio
pub mod Content
pub mod InApp
pub mod Sdk
pub mod Backends
pub mod Laws
