-- ===== src/Provider/Backends.antt =====
-- internal/provider/{twilio,fcm,ses}: Send of the three backends that call an SDK. A client is a
-- parameter: what it does to its state S on a request, and whether it fails.
pub mod Sms
pub mod Push
pub mod Email
mod Outcomes
mod Flat
