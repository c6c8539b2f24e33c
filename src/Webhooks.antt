-- ===== src/Webhooks.antt =====
-- webhook_service.py and webhooks.py: which endpoints get an event, the delivery of it with its
-- retries, and the routes that register, read and deactivate an endpoint.
mod Service
mod Reads
mod Routes
pub mod Filter
pub mod Tries
pub mod Attempts
pub mod Untouched
pub mod Fanout
pub mod Deactivation
unfoldable pub use Service.*
unfoldable pub use Reads.*
unfoldable pub use Routes.*
