-- ===== src/Storage.antt =====
-- storage/mod.rs: the types of the `Storage` trait; its implementation in memory is below.
pub mod InMemory
pub mod Filesystem
pub mod Interface
use btdt.Prelude.{ℕ, Bytes}

pub data EntryType : Type 0 where
  file directory : EntryType

pub record StorageEntry : Type 0 where
  pub entry_type : EntryType
  pub name : Bytes
  pub size : ℕ

-- The size hint, and the reader of the implementation.
pub record FileHandle (R : Type 0) : Type 0 where
  pub size_hint : ℕ
  pub reader : R
