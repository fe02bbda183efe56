-- ===== src/Storage/Filesystem/Tests.antt =====
-- The storage of storage/filesystem on small examples.
use btdt.Prelude.{
  ◌≡◌, refl, ◌⊎◌, sym, arith, true, false, none, some, List, [], ◌∷◌, Bytes, codes, inl, inr,
}
use mathlib.Core.Option
use btdt.Io.{ok, err, error_at, not_a_directory, IoResult}
use btdt.Storage.Interface.{IsLawful}
use btdt.Storage.Filesystem.Paths.{PathBuf, root_dir, normal}
use btdt.Storage.Filesystem.Staged
use btdt.Storage.Filesystem.Staged.{StagedFile, Locking, is_err}
use btdt.Storage.Filesystem.Disk.{DiskState, Node, directory, regular, node_at, error}
use btdt.Storage.Filesystem.Disk.Names.{Location, lookup, location_dec}
use btdt.Storage.Filesystem.Disk.Sound.{IsSound, locate, descend}
use btdt.Storage.Filesystem.View.{filesystem, filesystem_view, content_at}
use btdt.Storage.Filesystem.Opened.{place}
use btdt.Storage.Filesystem.Implements.{filesystem-IsLawful}
use btdt.Storage.Filesystem.Staging.{write_each}
use btdt.Storage.Filesystem.Atomic.{drop-IsReplaced, write_each-IsReplaced, IsReplaced}
use btdt.Storage.Filesystem.Leftovers.{clean_leftover_tmp_files, is_tmp_name, rsplit_once}
use btdt.Storage.Filesystem.Cleaned.{clean_leftover_tmp_files-kept}
use btdt.Storage.Filesystem.{Host, State, put, get, close, drop_writer}

abbrev locking : Locking
locking = record {
  lock_exclusive = λ i js. (i ∷ js, ok tt);
  try_lock_exclusive = λ i js. (i ∷ js, ok tt);
}

abbrev pub host : Host
host = record {
  open_error = λ n. none;
  allocated_size = λ c. ok 4096;
  locking = locking;
  suffix_at = λ n. codes "abcdefg";
}

-- The root of the storage is `/r`.
abbrev root : PathBuf
root = root_dir ∷ normal (codes "r") ∷ []

abbrev base : Location
base = codes "r" ∷ []

abbrev empty_disk : DiskState
empty_disk = record {
  nodes = (base, directory) ∷ [];
  files = [];
  locks = [];
  cwd = [];
  ticks = 0;
  faults = λ n. none;
}

abbrev pub start : State
start = record { disk = empty_disk; rng = 0 }

abbrev target : Bytes
target = codes "/d/x"

abbrev opened : StagedFile
opened = record {
  file = 0;
  tmp_path =
      root_dir ∷ normal (codes "r") ∷ normal (codes "d") ∷ normal (codes "x.tmp.abcdefg") ∷ [];
  target_path = root_dir ∷ normal (codes "r") ∷ normal (codes "d") ∷ normal (codes "x") ∷ [];
  finalized = false;
}

opens : (put host root target start).1 ≡ ok opened
unfolding put
opens = refl

abbrev bufs : List Bytes
bufs = codes "ab" ∷ codes "c" ∷ []

abbrev written : State
written = (write_each host root opened bufs (put host root target start).0).0

abbrev closed : State
closed = (close host root opened written).0

stored : content_at closed.disk (place host root target) ≡ some (codes "abc")
unfolding put write_each close place locate
stored = refl

-- A path that ends in a slash leads to no file.
slash_get :
    get host root (codes "/d/x/") closed ≡ err (error_at (error not_a_directory) (codes "/r/d/x/."))
unfolding put write_each close get
slash_get = refl

tmp_names : is_tmp_name (codes "x.tmp.abcdefg") ≡ true
unfolding is_tmp_name
tmp_names = refl

-- The examples that the theorems apply to

at_start :
    (l : Location) (x : Node)
    → node_at empty_disk l ≡ some x
    → (x ≡ directory) × ((l ≡ base) ⊎ (l ≡ []))
unfolding node_at lookup
at_start [] x h = (ground arith, inr refl)
at_start (n ∷ l) x h = elim (location_dec base (n ∷ l)) [
  | yes e ↦ (ground arith, inl (sym e))
  | no ne ↦ absurd (ground arith)
]

under_base :
    (n : Bytes) (l : Location)
    → (n ∷ l ≡ base) ⊎ (n ∷ l ≡ [])
    → node_at empty_disk l ≡ some directory
unfolding node_at
under_base n [] h = refl
under_base n (j ∷ l) (inl e) = absurd (ground arith)
under_base n (j ∷ l) (inr e) = absurd (ground arith)

start-IsSound : IsSound empty_disk
start-IsSound = record {
  closed = λ n l x h. under_base n l (at_start (n ∷ l) x h).1;
  in_range = λ l i h. cc (at_start l (regular i) h).0;
  distinct = λ l m i h g. cc (at_start l (regular i) h).0;
}

base_there : node_at empty_disk base ≡ some directory
unfolding node_at lookup
base_there = refl

root_place : locate root ≡ some base
unfolding locate descend
root_place = refl

filesystem-IsLawful_example : IsLawful (filesystem host root) (filesystem_view host root base)
filesystem-IsLawful_example =
    filesystem-IsLawful host root base root_place (λ n. refl)
      (record { opens = λ i. refl; sized = λ c. refl })

write_each-IsReplaced_example :
    IsReplaced host root target
      (codes "abc")
      start
      written
      closed
      (write_each host root opened bufs (put host root target start).0).1
      (close host root opened written).1
write_each-IsReplaced_example =
    write_each-IsReplaced host root base target bufs start opened root_place (λ n. refl)
      (start-IsSound, base_there) opens

drop-IsReplaced_example :
    (r : IoResult (Unit {0})) × (IsReplaced host root target
      (codes "abc")
      start
      written
      (drop_writer host root opened written).0
      (write_each host root opened bufs (put host root target start).0).1
      r)
    × ((drop_writer host root opened written).1 ≡ is_err r)
drop-IsReplaced_example =
    drop-IsReplaced host root base target bufs start opened root_place (λ n. refl)
      (start-IsSound, base_there) opens

-- A writer that is dropped with nothing written leaves an empty file at its target.
dropped :
    content_at
      (drop_writer host root opened (put host root target start).0).0.disk
      (place host root target)
    ≡ some []
unfolding put drop_writer Staged.drop place locate
dropped = refl

-- A path that begins with two slashes leads out of the storage.
escapes : place host root (codes "//x") ≡ some (codes "x" ∷ [])
unfolding place locate
escapes = refl

-- A temporary file that was left behind
abbrev left : DiskState
left = record empty_disk {
  nodes =
      (codes "x.tmp.abcdefg" ∷ base, regular 0)
      ∷ (codes "x" ∷ base, regular 1)
      ∷ (base, directory)
      ∷ [];
  files = codes "a" ∷ codes "b" ∷ [];
}

kept_there : node_at left (codes "x" ∷ base) ≡ some (regular 1)
unfolding node_at lookup location_dec
kept_there = refl

no_tmp : is_tmp_name (codes "x") ≡ false
unfolding is_tmp_name rsplit_once
no_tmp = refl

removed_there :
    Option.map
      (λ (e, r). node_at e (codes "x.tmp.abcdefg" ∷ base))
      (clean_leftover_tmp_files locking root left)
    ≡ some none
unfolding clean_leftover_tmp_files node_at
removed_there = refl

clean_leftover_tmp_files-kept_example :
    (e : DiskState) × (r : IoResult (Unit {0})) × (clean_leftover_tmp_files locking root left
      ≡ some (e, r))
    × (node_at e (codes "x" ∷ base) ≡ some (regular 1))
clean_leftover_tmp_files-kept_example =
    clean_leftover_tmp_files-kept locking root left (codes "x" ∷ base) (regular 1) kept_there no_tmp
