-- ===== src/Storage/Filesystem/Implements.antt =====
-- The storage of storage/filesystem/mod.rs keeps the promises of a storage.
use btdt.Prelude.{ℕ, ◌≡◌, sym, some, length}
use btdt.Storage.Interface.{IsLawful}
use btdt.Storage.Filesystem.Paths.{PathBuf}
use btdt.Storage.Filesystem.Disk.Names.{Location}
use btdt.Storage.Filesystem.Disk.Sound.{locate}
use btdt.Storage.Filesystem.Writing.{put-Touches, put_owns}
use btdt.Storage.Filesystem.Appending.{write-Touches, write_owns}
use btdt.Storage.Filesystem.Closed.{close-Touches, close_content}
use btdt.Storage.Filesystem.Reading.{CanRead, get_found, get_absent}
use btdt.Storage.Filesystem.View.{filesystem, filesystem_view}
use btdt.Storage.Filesystem.{Host}

-- The file system storage with an absolute root, whose temporary names end in seven bytes, is a lawful
-- storage if files can be opened and their allocated size can be asked for, where a good state is a sound
-- file system in which the root is a directory: an operation touches the file of its path alone, also where
-- a change of the disk fails, and what was written is found under the path once the writer is closed. A
-- path that ends in a slash has no content.
pub filesystem-IsLawful :
    (H : Host) (root : PathBuf) (base : Location)
    → locate root ≡ some base
    → ((n : ℕ) → length (H.suffix_at n) ≡ 7)
    → CanRead H
    → IsLawful (filesystem H root) (filesystem_view H root base)
filesystem-IsLawful H root base absolute short can = record {
  apart_sym = λ p q (k, l, x, y, ne, f, g). (l, k, y, x, (λ e. ne (sym e)), g, f);
  get_found = λ p c s g h. get_found H root p c s can g.0 h;
  get_absent = λ p s (k, g, a, f). get_absent H root p k s g a f;
  put_touches = put-Touches H root base short;
  put_owns = λ p s w g h. put_owns H root base short p s w absolute g h;
  write_touches = write-Touches H root base;
  write_owns = write_owns H root base;
  close_touches = close-Touches H root base;
  close_content = close_content H root base;
}
