-- ===== src/Storage/Filesystem/Cleaning.antt =====
-- The cleaning of leftover files of storage/filesystem ends, whatever the removals keep.
use btdt.Prelude.{
  ℕ, zero, suc, max, ◌≤◌, ◌<◌, ◌+◌, ◌≡◌, ◌≢◌, refl, ◌∙◌, ap, true, ◌&&◌, Option, some, List, [],
  ◌∷◌, arith, Bytes, length, Option-cases, Bool-cases, inl, inr, ◌⊎◌, ite,
}
use btdt.Prelude.Utf8.{is_utf8}
use btdt.Io.{Result-cases, ok, err, IoResult, not_found, not_a_directory}
use btdt.Storage.Filesystem.Staged.{Locking, without}
use btdt.Storage.Filesystem.Disk.{
  DiskState, Node, directory, special, regular, node_at, error, attempt, tick,
}
use btdt.Storage.Filesystem.Disk.Names.{Location, location_dec, remove}
use btdt.Storage.Filesystem.Disk.Changes.{same_nodes}
use btdt.Storage.Filesystem.{children, child_of}
use btdt.Storage.Filesystem.Leftovers.{
  clean_file, clean_entries, clean_dir, Cleaner, depth, remove_at, unlink_at, is_tmp_name,
}

-- Every location is at most that long.
abbrev pub AllShort : ℕ → List (Location × Node) → Type 0
AllShort b [] = Unit
AllShort b ((l, n) ∷ names) = (length l ≤ b) × AllShort b names

ite_both {ℓ} :
    {A : Type 0} {Q : Type ℓ} (P : A → Type 0) (q : Dec Q) (x y : A) → P x → P y → P (ite q x y)
ite_both P (yes e) x y a b = a
ite_both P (no e) x y a b = b

pub AllShort-remove :
    (b : ℕ) (l : Location) (names : List (Location × Node))
    → AllShort b names
    → AllShort b (remove l names)
unfolding remove
AllShort-remove b l [] h = tt
AllShort-remove b l ((m, n) ∷ names) h =
    let rest = AllShort-remove b l names h.1 in
    ite_both (AllShort b) (location_dec m l) (remove l names) ((m, n) ∷ remove l names) rest
      (h.0, rest)

AllShort-le :
    (b c : ℕ) (names : List (Location × Node)) → b ≤ c → AllShort b names → AllShort c names
AllShort-le b c [] le h = tt
AllShort-le b c ((l, n) ∷ names) le h = ((let x = h.0 in omega arith), AllShort-le b c names le h.1)

pub depth-AllShort : (names : List (Location × Node)) → AllShort (depth names) names
unfolding depth
depth-AllShort [] = tt
depth-AllShort ((l, n) ∷ names) = (
  omega arith,
  AllShort-le (depth names) (max (length l) (depth names)) names (omega arith)
      (depth-AllShort names),
)

-- A directory with an entry is shorter than the bound.
children-shorter :
    (b : ℕ) (l : Location) (names : List (Location × Node))
    → AllShort b names
    → (children l names ≡ []) ⊎ (suc (length l) ≤ b)
unfolding children child_of
children-shorter b l [] h = inl refl
children-shorter b l (([], n) ∷ names) h = children-shorter b l names h.1
children-shorter b l ((name ∷ m, n) ∷ names) h = elim (location_dec m l) [
  | yes e ↦ inr (let x = h.0 in omega (arith, ap length e))
  | no ne ↦ elim (children-shorter b l names h.1) [ inr x ↦ inr x | inl x ↦ inl (ground arith) ]
]

-- A file that is cleaned is removed, or nothing is.
remove_at-nodes :
    (l : Location) (d : DiskState)
    → ((remove_at l d).0.nodes ≡ d.nodes)
      ⊎ (((remove_at l d).0.nodes ≡ remove l d.nodes) × (node_at d l ≢ some directory))
unfolding remove_at attempt
remove_at-nodes l d = elim (Option-cases (d.faults d.ticks)) [
  | inr (x, a) ↦ inl (rw (remove_at, attempt, a) refl)
  | inl a ↦ elim (Option-cases (node_at (tick d) l)) [
    | inl b ↦ inl (rw (remove_at, attempt, a, unlink_at, b) refl)
    | inr (directory, b) ↦ inl (rw (remove_at, attempt, a, unlink_at, b) refl)
    | inr (special, b) ↦ inr (rw (remove_at, attempt, a, unlink_at, b) (refl, λ e. cc e))
    | inr (regular i, b) ↦ inr (rw (remove_at, attempt, a, unlink_at, b) (refl, λ e. cc e))
  ]
]

pub clean_file-nodes :
    (K : Locking) (l : Location) (i : ℕ) (d : DiskState)
    → ((clean_file K l i d).0.nodes ≡ d.nodes)
      ⊎ (((clean_file K l i d).0.nodes ≡ remove l d.nodes) × (node_at d l ≢ some directory))
unfolding clean_file
clean_file-nodes K l i d = elim (Option-cases (node_at d l)) [
  | inl a ↦ inl (rw (clean_file, a) refl)
  | inr (n, a) ↦ elim (Result-cases (K.try_lock_exclusive i d.locks).1) [
    | inr (x, b) ↦ inl (rw (clean_file, a, b) refl)
    | inl (u, b) ↦
        let f : DiskState = record d { locks = without i (K.try_lock_exclusive i d.locks).0 } in
        elim (remove_at-nodes l f) [
          | inl e ↦ inl (rw (clean_file, a, b) e)
          | inr (e, g) ↦ inr ((rw (clean_file, a, b) e), λ h. g (same_nodes d f l refl ∙ h))
        ]
  ]
]

-- The cleaning ends, in a state with the property.
abbrev pub Ends : (DiskState → Type 0) → Option (DiskState × IoResult (Unit {0})) → Type 0
Ends P o = (e : DiskState) × (r : IoResult (Unit {0})) × (o ≡ some (e, r)) × P e

-- The removal of a file with a temporary name keeps the property.
abbrev pub Survives : Locking → (DiskState → Type 0) → Type 0
Survives K P =
    (name : Bytes) (l : Location) (i : ℕ) (d : DiskState)
    → is_tmp_name name ≡ true
    → P d
    → P (clean_file K (name ∷ l) i d).0

module _ (K : Locking) (P : DiskState → Type 0) (kept : Survives K P) where
  clean_entries-Ends :
      (sub : Cleaner) (l : Location) (es : List (Bytes × Node)) (d : DiskState)
      → ((name : Bytes) (e : DiskState) → P e → Ends P (sub (name ∷ l) e))
      → P d
      → Ends P (clean_entries K sub l es d)
  unfolding clean_entries
  clean_entries-Ends sub l [] d s p = (d, ok tt, refl, p)
  clean_entries-Ends sub l ((name, special) ∷ es) d s p = clean_entries-Ends sub l es d s p
  clean_entries-Ends sub l ((name, directory) ∷ es) d s p =
      let (e, r, h, q) = s name d p in
      elim (Result-cases r) [
        | inl (tt, g) ↦ rw (clean_entries, h, g) (clean_entries-Ends sub l es e s q)
        | inr (x, g) ↦ rw (clean_entries, h, g) (e, err x, refl, q)
      ]
  clean_entries-Ends sub l ((name, regular i) ∷ es) d s p =
      elim (Bool-cases (is_utf8 name && is_tmp_name name)) [
        | inr a ↦ rw (clean_entries, a) (clean_entries-Ends sub l es d s p)
        | inl a ↦
            let q = kept name l i d (ground arith) p in
            elim (Result-cases (clean_file K (name ∷ l) i d).1) [
              | inl (tt, g) ↦
                  rw (clean_entries, a, g)
                    (clean_entries-Ends sub l es (clean_file K (name ∷ l) i d).0 s q)
              | inr (x, g) ↦
                  rw (clean_entries, a, g) ((clean_file K (name ∷ l) i d).0, err x, refl, q)
            ]
      ]

  pub clean_dir-Ends :
      (fuel b : ℕ) (l : Location) (d : DiskState)
      → ((e : DiskState) → P e → AllShort b e.nodes)
      → 0 < fuel
      → b < fuel + length l
      → P d
      → Ends P (clean_dir K fuel l d)
  unfolding clean_dir
  clean_dir-Ends zero b l d s pos le p = absurd (omega arith)
  clean_dir-Ends (suc fuel) b l d s pos le p = elim (Option-cases (node_at d l)) [
    | inl a ↦ rw (clean_dir, a) (d, err (error not_found), refl, p)
    | inr (special, a) ↦ rw (clean_dir, a) (d, err (error not_a_directory), refl, p)
    | inr (regular i, a) ↦ rw (clean_dir, a) (d, err (error not_a_directory), refl, p)
    | inr (directory, a) ↦ elim (children-shorter b l d.nodes (s d p)) [
      | inl c ↦ rw (clean_dir, a, c, clean_entries) (d, ok tt, refl, p)
      | inr c ↦
          rw (clean_dir, a)
            (clean_entries-Ends (clean_dir K fuel) l (children l d.nodes) d
              (λ name e q. clean_dir-Ends fuel b (name ∷ l) e s (omega arith) (omega arith) q) p)
    ]
  ]
