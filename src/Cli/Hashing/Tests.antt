-- ===== src/Cli/Hashing/Tests.antt =====
-- The theorem about hashing.rs on two listings of one directory.
use btdt.Prelude.{◌≡◌, refl, ◌++◌, [], Bytes, codes, arith}
use btdt.Io.{ok}
use btdt.Cli.Hashing.{
  Hashing, Entries, file, dir, end, entry, hash_path, sort_by_name, insert, name_lt, update_all,
  hash_bytes,
}
use btdt.Cli.Hashing.Listing.{Relisted, within, swap, hash_path-Relisted}

-- A hash that keeps all.
abbrev keeping : Hashing
keeping = record {
  Hasher = Bytes;
  new = [];
  update = λ bytes hasher. hasher ++ bytes;
  finalize = λ hasher. hasher;
}

-- The directory with its two files in one order and in the other.
abbrev forwards : Entries
forwards = entry (codes "a") (file (codes "1")) (entry (codes "b") (file (codes "2")) end)

abbrev backwards : Entries
backwards = entry (codes "b") (file (codes "2")) (entry (codes "a") (file (codes "1")) end)

relisted : Relisted (dir backwards) (dir forwards)
relisted =
    within (
      swap (codes "b") (codes "a") (file (codes "2")) (file (codes "1")) end λ h. ground (arith, h))

hash_path-Relisted_example : hash_path keeping (dir backwards) ≡ hash_path keeping (dir forwards)
hash_path-Relisted_example = hash_path-Relisted keeping (dir backwards) (dir forwards) relisted

-- Each name and then its file, by name.
hashes : hash_path keeping (dir backwards) ≡ ok (codes "a1b2")
unfolding hash_path sort_by_name insert name_lt update_all hash_bytes
hashes = refl
