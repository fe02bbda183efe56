-- ===== src/Cache.antt =====
-- cache/mod.rs: the hit of a cache, and the caches.
pub mod Externals
pub mod Meta
pub mod Local
pub mod Remote
pub mod Dispatcher
use btdt.Prelude.{ℕ, Option, Bytes}

pub record CacheHit (R : Type 0) : Type 0 where
  pub key : Bytes
  pub reader : R
  pub size_hint : Option ℕ
