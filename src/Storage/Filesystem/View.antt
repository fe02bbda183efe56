-- ===== src/Storage/Filesystem/View.antt =====
-- The storage of storage/filesystem/mod.rs as an instance of the interface, and what a client sees of
-- it: a path has a place in the file system, and a writer has a temporary file beside it.
use btdt.Prelude.{
  ℕ, ◌≡◌, ◌≢◌, refl, ◌∙◌, ap, false, Option, none, some, [], ◌∷◌, arith, Bytes, length,
  Option-cases, inl, inr, ◌⊎◌,
}
use btdt.Storage.Interface.{Storage, View, Touches}
use btdt.Storage.Filesystem.Paths.{PathBuf, trimmed}
use btdt.Storage.Filesystem.Places.{tmp_at}
use btdt.Storage.Filesystem.Staged.{StagedFile}
use btdt.Storage.Filesystem.Disk.{DiskState, Node, directory, special, regular, node_at, content}
use btdt.Storage.Filesystem.Disk.Names.{Location}
use btdt.Storage.Filesystem.Disk.Sound.{IsSound, locate}
use btdt.Storage.Filesystem.Disk.Adds.{Adds}
use btdt.Storage.Filesystem.Opened.{place, base_place, place-cases}
use btdt.Io.{IoResult, ok, err}
use btdt.Storage.Filesystem
use btdt.Storage.Filesystem.{Host, State, canonical_path}

-- The content of what stands at a place, if it is a file.
abbrev pub file_content : DiskState → Option Node → Option Bytes
file_content d (some (regular i)) = some (content d i)
file_content d (some directory) = none
file_content d (some special) = none
file_content d none = none

abbrev pub content_at : DiskState → Option Location → Option Bytes
content_at d none = none
content_at d (some l) = file_content d (node_at d l)

-- Nothing stands at a location, nor anything but directories above it.
abbrev pub IsFree : DiskState → Location → Type 0
IsFree d [] = ⊥
IsFree d (n ∷ l) = (node_at d (n ∷ l) ≡ none) × ((node_at d l ≡ some directory) ⊎ (IsFree d l))

-- The suffix of a temporary file has seven bytes.
abbrev pub NotBeside : Location → Location → Type 0
NotBeside k l = (s : Bytes) → length s ≡ 7 → l ≢ tmp_at s k

-- An open writer's temporary file stands beside its target, and holds what was written.
pub record IsStaged (d : DiskState) (w : StagedFile) (k : Location) (s b : Bytes) : Type 0 where
  pub target : locate (trimmed w.target_path) ≡ some k
  pub short : length s ≡ 7
  pub tmp : locate w.tmp_path ≡ some (tmp_at s k)
  pub there : node_at d (tmp_at s k) ≡ some (regular w.file)
  pub written : content d w.file ≡ b
  pub unfinished : w.finalized ≡ false

abbrev pub size_of : IoResult ℕ → ℕ
size_of (ok n) = n
size_of (err e) = 0

module _ (H : Host) (root : PathBuf) where
  abbrev pub filesystem : Storage
  filesystem = record {
    State = State;
    Reader = Node;
    Writer = StagedFile;
    delete = Filesystem.delete H root;
    get = Filesystem.get H root;
    list = Filesystem.list H root;
    put = Filesystem.put H root;
    write_all = Filesystem.write_all H root;
    close = Filesystem.close H root;
    read_exact = Filesystem.read_exact H root;
  }

  -- Two paths are apart if their places differ, and neither is the name of a temporary file of the
  -- other.
  abbrev pub filesystem_view : Location → View filesystem
  filesystem_view base = record {
    Good = λ s. IsSound s.disk × (node_at s.disk base ≡ some directory);
    Apart = λ p q.
        (k : Location) × (l : Location) × (base_place H root p ≡ some k)
        × (base_place H root q ≡ some l)
        × (k ≢ l)
        × (NotBeside k l)
        × (NotBeside l k);
    content = λ s p. content_at s.disk (place H root p);
    hint = λ c. size_of (H.allocated_size (some c));
    Absent =
        λ s p. (k : Location) × (IsSound s.disk) × (place H root p ≡ some k) × (IsFree s.disk k);
    Owns = λ s w p b.
        (k : Location) × (suffix : Bytes) × ((base_place H root p ≡ some k)
          × (canonical_path H root p ≡ ok w.target_path))
        × (IsStaged s.disk w k suffix b);
  }

  -- A path has the content that its place has, or none.
  pub same_at :
      (q : Bytes) (l : Location) (d e : DiskState)
      → base_place H root q ≡ some l
      → content_at e (some l) ≡ content_at d (some l)
      → content_at e (place H root q) ≡ content_at d (place H root q)
  same_at q l d e h same = elim (place-cases H root q) [
    | inl a ↦ rw (a, h) same
    | inr a ↦ rw a refl
  ]

  -- To add files beside the place of a path touches the path alone.
  pub Adds-Touches :
      (base : Location) (p suffix : Bytes) (s t : State)
      → length suffix ≡ 7
      → (filesystem_view base).Good s
      → Adds
          (λ l. (k : Location) → base_place H root p ≡ some k → l ≡ tmp_at suffix k)
          s.disk
          t.disk
      → Touches (filesystem_view base) p s t
  Adds-Touches base p suffix s t short (sound, there) a = record {
    good = (a.sound, a.kept base directory there);
    content_eq = λ q (k, l, x, y, ne, b, c).
        same_at q l s.disk t.disk y (elim (Option-cases (node_at s.disk l)) [
          | inr (directory, h) ↦ rw (h, a.kept l directory h) refl
          | inr (special, h) ↦ rw (h, a.kept l special h) refl
          | inr (regular i, h) ↦
              rw (h, a.kept l (regular i) h) (ap some (a.contents i (sound.in_range l i h)))
          | inl h ↦ elim (Option-cases (node_at t.disk l)) [
            | inl g ↦ rw (h, g) refl
            | inr (directory, g) ↦ rw (h, g) refl
            | inr (special, g) ↦ rw (h, g) refl
            | inr (regular i, g) ↦ elim (a.added l i g) [
              | inl z ↦ absurd (ground arith)
              | inr z ↦ absurd (b suffix short (z k x))
            ]
          ]
        ]);
    owns = λ w q b ap' (l, sfx, y, o). (
      l,
      sfx,
      y,
      record {
        target = o.target;
        short = o.short;
        tmp = o.tmp;
        there = a.kept (tmp_at sfx l) (regular w.file) o.there;
        written = a.contents w.file (sound.in_range (tmp_at sfx l) w.file o.there) ∙ o.written;
        unfinished = o.unfinished;
      },
    );
  }
