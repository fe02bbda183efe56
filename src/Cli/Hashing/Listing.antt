-- ===== src/Cli/Hashing/Listing.antt =====
-- The hash of btdt-cli/src/hashing.rs does not depend on the order in which a file system lists the
-- entries of its directories.
use btdt.Prelude.{◌≡◌, ◌≢◌, refl, ap, ◌∙◌, Bytes}
use btdt.Cli.Hashing.{
  Hashing, Node, Entries, dir, end, entry, hash_path, hash_entries, sort_by_name, update_all,
  insert,
}
use btdt.Cli.Hashing.Sorting.{insert-swap}

-- The same files and directories, whose entries may be listed in another order, at every depth.
mutual
  pub data Relisted : Node → Node → Type 0 where
    unchanged : (n : Node) → Relisted n n
    within : {a b : Entries} → RelistedEntries a b → Relisted (dir a) (dir b)

  pub data RelistedEntries : Entries → Entries → Type 0 where
    nothing : RelistedEntries end end
    first :
        (name : Bytes) {m n : Node} {a b : Entries}
        → Relisted m n
        → RelistedEntries a b
        → RelistedEntries (entry name m a) (entry name n b)
    swap :
        (x y : Bytes) (m n : Node) (a : Entries)
        → x ≢ y
        → RelistedEntries (entry x m (entry y n a)) (entry y n (entry x m a))
    trans : {a b c : Entries} → RelistedEntries a b → RelistedEntries b c → RelistedEntries a c

module _ (H : Hashing) where
  mutual
    unfolding hash_path sort_by_name

    same_hash : {m n : Node} → Relisted m n → hash_path H m ≡ hash_path H n
    same_hash (unchanged n) = refl
    same_hash (within r) = ap (λ l. update_all H l H.new) (same_sorted r)

    same_sorted :
        {a b : Entries}
        → RelistedEntries a b
        → sort_by_name (hash_entries H a) ≡ sort_by_name (hash_entries H b)
    same_sorted nothing = refl
    same_sorted (first name {m} {n} {a} {b} r s) =
        ap (λ h. insert (name, h) (sort_by_name (hash_entries H a))) (same_hash r)
        ∙ ap (insert (name, hash_path H n)) (same_sorted s)
    same_sorted (swap x y m n a d) =
        insert-swap (x, hash_path H m) (y, hash_path H n) (sort_by_name (hash_entries H a)) d
    same_sorted (trans r s) = same_sorted r ∙ same_sorted s

  -- Two trees that differ in the order of their listings alone, at any depth, have one hash, or fail with
  -- one error, whatever the hash function is. Only entries of different names change places.
  pub hash_path-Relisted : (m n : Node) → Relisted m n → hash_path H m ≡ hash_path H n
  hash_path-Relisted m n r = same_hash r
