-- ===== src/Storage/Filesystem/Canonical.antt =====
-- The shape of what `canonical_path` of storage/filesystem/mod.rs returns.
use btdt.Prelude.{
  ◌≡◌, refl, ◌∙◌, sym, ap, Bool, true, false, Option, Option-cases, none, some, List, [], ◌∷◌, ◌++◌,
  arith, Bytes, codes, same, drop, if◌then◌else◌, Bool-cases, inl, inr,
}
use mathlib.Core.Path.{subst}
use btdt.Prelude.Utf8.{is_nil}
use btdt.Io.{ok}
use btdt.Storage.InMemory.PathIter.{split, starts_with_slash}
use btdt.Storage.Filesystem.Paths.{
  Component, root_dir, cur_dir, parent_dir, normal, PathBuf, segment, segments, components, join,
  split_last, trimmed, ends_in_dir, marked, before_mark, is_dir_text, join_text,
}
use btdt.Storage.Filesystem.Disk.Names.{Location}
use btdt.Storage.Filesystem.Disk.Sound.{descend, locate}
use btdt.Storage.Filesystem.Places.{split_last-some, locate-root}
use btdt.Storage.Filesystem.{Host, canonical_path, is_parent_dir}

-- Names and steps to the parent directory alone
abbrev pub IsSegmented : PathBuf → Type 0
IsSegmented [] = Unit
IsSegmented (normal n ∷ p) = IsSegmented p
IsSegmented (parent_dir ∷ p) = IsSegmented p
IsSegmented (root_dir ∷ p) = ⊥
IsSegmented (cur_dir ∷ p) = ⊥

-- What holds in both branches
either : (P : PathBuf → Type 0) (b : Bool) {p q : PathBuf} → P p → P q → P (if b then p else q)
either P true x y = x
either P false x y = y

IsSegmented-segment : (w : Bytes) (p : PathBuf) → IsSegmented p → IsSegmented (segment w p)
IsSegmented-segment w p h =
    either IsSegmented (is_nil w) h
      (either IsSegmented (same w (codes ".")) h (either IsSegmented (same w (codes "..")) h h))

segments-IsSegmented : (ws : List Bytes) → IsSegmented (segments ws)
unfolding segments
segments-IsSegmented [] = tt
segments-IsSegmented (w ∷ ws) = IsSegmented-segment w (segments ws) (segments-IsSegmented ws)

append-IsSegmented : (p q : PathBuf) → IsSegmented p → IsSegmented q → IsSegmented (p ++ q)
append-IsSegmented [] q a b = b
append-IsSegmented (normal n ∷ p) q a b = append-IsSegmented p q a b
append-IsSegmented (parent_dir ∷ p) q a b = append-IsSegmented p q a b
append-IsSegmented (root_dir ∷ p) q a b = absurd a
append-IsSegmented (cur_dir ∷ p) q a b = absurd a

abbrev WithSegments : PathBuf → Type 0
WithSegments (root_dir ∷ p) = IsSegmented p
WithSegments (cur_dir ∷ p) = IsSegmented p
WithSegments p = IsSegmented p

segmented : (p : PathBuf) → IsSegmented p → WithSegments p
segmented [] h = h
segmented (normal n ∷ p) h = h
segmented (parent_dir ∷ p) h = h
segmented (root_dir ∷ p) h = absurd h
segmented (cur_dir ∷ p) h = absurd h

components-WithSegments : (s : Bytes) → WithSegments (components s)
unfolding components segments
components-WithSegments s =
    either WithSegments (starts_with_slash s) (segments-IsSegmented (split s)) (first (split s))
  where
    first :
        (ws : List Bytes)
        → WithSegments (elim ws [
          | [] ↦ []
          | v ∷ vs ↦ if same v (codes ".") then cur_dir ∷ segments vs else segments (v ∷ vs)
        ])
    first [] = tt
    first (w ∷ ws) = either WithSegments (same w (codes ".")) (segments-IsSegmented ws) (
        segmented (segment w (segments ws))
          (IsSegmented-segment w (segments ws) (segments-IsSegmented ws)))

descend-IsSegmented : (p : PathBuf) (l k : Location) → descend l p ≡ some k → IsSegmented p
unfolding descend
descend-IsSegmented [] l k h = tt
descend-IsSegmented (normal n ∷ p) l k h = descend-IsSegmented p (n ∷ l) k h
descend-IsSegmented (parent_dir ∷ p) l k h = absurd (ground arith)
descend-IsSegmented (root_dir ∷ p) l k h = absurd (ground arith)
descend-IsSegmented (cur_dir ∷ p) l k h = absurd (ground arith)

join-root :
    (r q : PathBuf)
    → IsSegmented r
    → WithSegments q
    → (t : PathBuf) × (join (root_dir ∷ r) q ≡ root_dir ∷ t) × IsSegmented t
unfolding join
join-root r [] a b = (r ++ [], refl, append-IsSegmented r [] a b)
join-root r (root_dir ∷ q) a b = (q, refl, b)
join-root r (cur_dir ∷ q) a b = (r ++ q, refl, append-IsSegmented r q a b)
join-root r (normal n ∷ q) a b =
    (r ++ (normal n ∷ q), refl, append-IsSegmented r (normal n ∷ q) a b)
join-root r (parent_dir ∷ q) a b =
    (r ++ (parent_dir ∷ q), refl, append-IsSegmented r (parent_dir ∷ q) a b)

split_last-append : (p : PathBuf) (c : Component) → split_last (p ++ (c ∷ [])) ≡ some (p, c)
unfolding split_last
split_last-append [] c = refl
split_last-append (b ∷ p) c = rw (split_last, split_last-append p c) refl

trimmed-append : (p : PathBuf) → trimmed (p ++ (cur_dir ∷ [])) ≡ p
unfolding trimmed
trimmed-append p = rw (trimmed, split_last-append p cur_dir) refl

-- A path with a last component that is none of the mark's
not_marked : (t : PathBuf) → IsSegmented t → marked (split_last t) ≡ false
unfolding split_last
not_marked [] h = refl
not_marked (normal n ∷ p) h = elim (Option-cases (split_last p)) [
  | inl e ↦ rw (split_last, e) refl
  | inr ((q, z), e) ↦ rw (split_last, e) (ground (arith, not_marked p h))
]
not_marked (parent_dir ∷ p) h = elim (Option-cases (split_last p)) [
  | inl e ↦ rw (split_last, e) refl
  | inr ((q, z), e) ↦ rw (split_last, e) (ground (arith, not_marked p h))
]
not_marked (root_dir ∷ p) h = absurd h
not_marked (cur_dir ∷ p) h = absurd h

root_not_marked : (t : PathBuf) → IsSegmented t → ends_in_dir (root_dir ∷ t) ≡ false
unfolding ends_in_dir split_last
root_not_marked t h = elim (Option-cases (split_last t)) [
  | inl e ↦ rw (ends_in_dir, split_last, e) refl
  | inr ((q, z), e) ↦ rw (ends_in_dir, split_last, e) (ground (arith, not_marked t h))
]

pub trimmed_same : (p : PathBuf) → ends_in_dir p ≡ false → trimmed p ≡ p
unfolding trimmed ends_in_dir
trimmed_same p h = unmarked (split_last p) h
  where
    unmarked : (o : Option (PathBuf × Component)) → marked o ≡ false → before_mark p o ≡ p
    unmarked none h = refl
    unmarked (some (q, cur_dir)) h = absurd (ground arith)
    unmarked (some (q, root_dir)) h = refl
    unmarked (some (q, parent_dir)) h = refl
    unmarked (some (q, normal n)) h = refl

trimmed-root : (t : PathBuf) → IsSegmented t → trimmed (root_dir ∷ t) ≡ root_dir ∷ t
trimmed-root t h = trimmed_same (root_dir ∷ t) (root_not_marked t h)

-- A path with a place has no mark.
pub locate_unmarked : (p : PathBuf) (k : Location) → locate p ≡ some k → ends_in_dir p ≡ false
locate_unmarked p k h =
    let (r, a, b) = locate-root p k h in rw a (root_not_marked r (descend-IsSegmented r [] k b))

module _ (H : Host) (root : PathBuf) (base : Location) (absolute : locate root ≡ some base) where
  -- Below an absolute root, a canonical path is the root directory and segments.
  pub canonical_path_segments :
      (path : Bytes) (p : PathBuf)
      → canonical_path H root path ≡ ok p
      → (t : PathBuf) × (trimmed p ≡ root_dir ∷ t) × IsSegmented t
  unfolding canonical_path join_text
  canonical_path_segments path p h = elim (Bool-cases (starts_with_slash path)) [
    | inl a ↦
        let (r, b, c) = locate-root root base absolute in
        let (t, e, f) =
          join-root r (components (drop 1 path)) (descend-IsSegmented r [] base c)
            (components-WithSegments (drop 1 path)) in
        let whole : join root (components (drop 1 path)) ≡ root_dir ∷ t = rw b e in
        let g : join_text root (drop 1 path) ≡ p = ground arith in
        elim (Bool-cases (is_dir_text (drop 1 path))) [
          | inl x ↦ (
            t,
            ap trimmed (sym g)
                ∙ (rw (join_text, x) (trimmed-append (join root (components (drop 1 path)))))
                ∙ whole,
            f,
          )
          | inr x ↦ (t, ap trimmed (sym g) ∙ (rw (join_text, x, whole) (trimmed-root t f)), f)
        ]
    | inr a ↦ absurd (ground arith)
  ]

-- No step to the parent directory
abbrev pub IsForward : PathBuf → Type 0
IsForward [] = Unit
IsForward (c ∷ p) = (is_parent_dir c ≡ false) × IsForward p

-- Segments with a name at the end, and no step to the parent directory before it, have a place.
pub descend-some :
    (p q : PathBuf) (n : Bytes) (l : Location)
    → IsSegmented p
    → split_last p ≡ some (q, normal n)
    → IsForward q
    → (k : Location) × (descend l p ≡ some k)
unfolding descend split_last
descend-some [] q n l a h f = absurd (ground arith)
descend-some (normal j ∷ []) q n l a h f = (j ∷ l, refl)
descend-some (parent_dir ∷ []) q n l a h f = absurd (ground arith)
descend-some (normal j ∷ c ∷ p) q n l a h f =
    let ((q', z), e) = split_last-some c p in
    let b : q ≡ normal j ∷ q' = ground arith in
    let g : split_last (c ∷ p) ≡ some (q', normal n) = ground arith in
    descend-some (c ∷ p) q' n (j ∷ l) a g (subst IsForward b f).1
descend-some (parent_dir ∷ c ∷ p) q n l a h f =
    let ((q', z), e) = split_last-some c p in
    let b : q ≡ parent_dir ∷ q' = ground arith in absurd (ground (arith, (subst IsForward b f).0))
descend-some (root_dir ∷ p) q n l a h f = absurd a
descend-some (cur_dir ∷ p) q n l a h f = absurd a
