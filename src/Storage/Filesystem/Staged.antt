-- ===== src/Storage/Filesystem/Staged.antt =====
-- storage/filesystem/staged_file.rs: a file that is written under a temporary name, and moved to its
-- target when it is closed or dropped.
use btdt.Prelude.{
  Option, ℕ, zero, suc, Bool, true, false, none, some, List, [], ◌∷◌, ◌++◌, Bytes, codes,
  if◌then◌else◌, ◌==◌,
}
use btdt.Prelude.Utf8.{is_utf8}
use btdt.Io.{ok, err, IoResult, IoPathResult, error_at, invalid_input, other}
use btdt.Storage.Filesystem.Paths.{PathBuf, file_name, with_file_name, render}
use btdt.Storage.Filesystem.Disk.{DiskState, create_new, exists, rename}

pub record StagedFile : Type 0 where
  pub file : ℕ
  pub tmp_path : PathBuf
  pub target_path : PathBuf
  pub finalized : Bool

-- fs2's `lock_exclusive`, on the files that are locked
pub record Locking : Type 0 where
  pub lock_exclusive : ℕ → List ℕ → List ℕ × IoResult (Unit {0})
  pub try_lock_exclusive : ℕ → List ℕ → List ℕ × IoResult (Unit {0})

unfoldable pub without : ℕ → List ℕ → List ℕ
without i [] = []
without i (j ∷ js) = let rest = without i js in if i == j then rest else j ∷ rest

-- The handle of a file is closed, and with it the lock is released.
abbrev pub release : ℕ → DiskState → DiskState
release i d = record d { locks = without i d.locks }

-- The loop of `new_with_suffix`
unfoldable pub create_and_lock :
    Locking → ℕ → PathBuf → PathBuf → DiskState → DiskState × IoPathResult StagedFile
unfolding create_new exists without
create_and_lock K zero target tmp d = (
  d,
  err (
      error_at (record { kind = other; message = "Failed to create and lock temporary file" })
        (render tmp)),
)
create_and_lock K (suc tries) target tmp d =
    let (d1, r1) = create_new tmp d in
    elim r1 [
      | err e ↦ (d1, err (error_at e (render tmp)))
      | ok file ↦
          let (js, r2) = K.lock_exclusive file d1.locks in
          let d2 : DiskState = record d1 { locks = js } in
          elim r2 [
            | err e ↦ (d2, err (error_at e (render tmp)))
            | ok u ↦ elim (exists d2 tmp) [
              | true ↦ (
                d2,
                ok (record {
                  file = file;
                  tmp_path = tmp;
                  target_path = target;
                  finalized = false;
                }),
              )
              | false ↦ create_and_lock K tries target tmp (release file d2)
            ]
          ]
    ]

abbrev pub tmp_name : Bytes → Bytes → Bytes
tmp_name filename suffix = filename ++ (codes ".tmp." ++ suffix)

-- `file_name` as text, with `OsStr::to_str`
unfoldable pub file_name_str : PathBuf → Option Bytes
unfolding file_name is_utf8
file_name_str p = elim (file_name p) [
  | none ↦ none
  | some name ↦ if is_utf8 name then some name else none
]

-- `StagedFile::new_with_suffix`
unfoldable pub new_with_suffix :
    Locking → PathBuf → Bytes → DiskState → DiskState × IoPathResult StagedFile
unfolding file_name_str with_file_name render create_and_lock
new_with_suffix K target suffix d = elim (file_name_str target) [
  | none ↦ (
    d,
    err (error_at (record { kind = invalid_input; message = "Invalid filename" }) (render target)),
  )
  | some filename ↦ create_and_lock K 5 target (with_file_name (tmp_name filename suffix) target) d
]

-- `finalize`; the flag is set also where the move fails.
unfoldable pub finalize : StagedFile → DiskState → (DiskState × StagedFile) × IoResult (Unit {0})
unfolding rename
finalize w d =
    let (d', r) = rename w.tmp_path w.target_path d in ((d', record w { finalized = true }), r)

abbrev pub is_err : IoResult (Unit {0}) → Bool
is_err (ok u) = false
is_err (err e) = true

-- `Drop`, with whether it panics
unfoldable pub drop : StagedFile → DiskState → DiskState × Bool
unfolding finalize without
drop w d = elim w.finalized [
  | true ↦ (release w.file d, false)
  | false ↦ let ((d', w'), r) = finalize w d in (release w.file d', is_err r)
]

-- `Close`, after which the file is dropped
unfoldable pub close : StagedFile → DiskState → DiskState × IoResult (Unit {0})
unfolding finalize drop
close w d = let ((d', w'), r) = finalize w d in ((drop w' d').0, r)
