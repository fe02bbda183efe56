-- ===== src/Util/Http.antt =====
-- util/http: the HTTP client.
pub mod Error
pub mod Source
pub mod Hex
pub mod Decimal
pub mod Text
pub mod Status
pub mod Header
pub mod Message
pub mod Body
pub mod Network
pub mod Request
pub mod Client
pub mod Tests
