-- ===== src/Storage/Filesystem/Places.antt =====
-- The place of a path, and those of the temporary files beside it.
use btdt.Prelude.{
  ◌≡◌, ◌≢◌, refl, ◌∙◌, sym, ap, some, [], ◌∷◌, ◌++◌, arith, Bytes, codes, length, length-append,
  Option-cases, inl, inr,
}
use btdt.Storage.Filesystem.Paths.{
  Component, root_dir, cur_dir, parent_dir, normal, PathBuf, split_last, last_name, replace_last,
}
use btdt.Storage.Filesystem.Disk.Names.{Location}
use btdt.Storage.Filesystem.Disk.Sound.{descend, locate}
use btdt.Storage.Filesystem.Staged.{tmp_name}

-- The temporary file with a suffix beside a place.
unfoldable pub tmp_at : Bytes → Location → Location
tmp_at s [] = []
tmp_at s (n ∷ l) = tmp_name n s ∷ l

pub split_last-some :
    (c : Component) (p : PathBuf) → (x : PathBuf × Component) × (split_last (c ∷ p) ≡ some x)
unfolding split_last
split_last-some c p = elim (Option-cases (split_last p)) [
  | inl e ↦ (([], c), rw (split_last, e) refl)
  | inr ((q, l), e) ↦ ((c ∷ q, l), rw (split_last, e) refl)
]

-- What stands in the place of the last name of a path has the same names above it.
descend-split_last :
    (p q : PathBuf) (n : Bytes) (l k : Location)
    → split_last p ≡ some (q, normal n)
    → descend l p ≡ some k
    → (m : Location) × (k ≡ n ∷ m) × ((x : Bytes) → descend l (q ++ (normal x ∷ [])) ≡ some (x ∷ m))
unfolding split_last descend
descend-split_last [] q n l k a h = absurd (ground arith)
descend-split_last (normal j ∷ []) q n l k a h =
    let e : [] ≡ q = ground arith in (l, ground arith, λ x. rw (← e) refl)
descend-split_last (normal j ∷ c ∷ p) q n l k a h =
    let ((q', z), e) = split_last-some c p in
    let f : normal j ∷ q' ≡ q = ground arith in
    let g : split_last (c ∷ p) ≡ some (q', normal n) = ground arith in
    let (m, b, r) = descend-split_last (c ∷ p) q' n (j ∷ l) k g h in (m, b, λ x. rw (← f) (r x))
descend-split_last (root_dir ∷ p) q n l k a h = absurd (ground arith)
descend-split_last (cur_dir ∷ p) q n l k a h = absurd (ground arith)
descend-split_last (parent_dir ∷ p) q n l k a h = absurd (ground arith)

pub last_name-some :
    (p : PathBuf) (n : Bytes)
    → last_name p ≡ some n
    → (q : PathBuf) × (split_last p ≡ some (q, normal n))
unfolding last_name
last_name-some p n h = elim (Option-cases (split_last p)) [
  | inl e ↦ absurd (ground arith)
  | inr ((q, normal j), e) ↦ (q, ground arith)
  | inr ((q, root_dir), e) ↦ absurd (ground arith)
  | inr ((q, cur_dir), e) ↦ absurd (ground arith)
  | inr ((q, parent_dir), e) ↦ absurd (ground arith)
]

pub split_last-root :
    (p q : PathBuf) (n : Bytes)
    → split_last (root_dir ∷ p) ≡ some (q, normal n)
    → (r : PathBuf) × (q ≡ root_dir ∷ r) × (split_last p ≡ some (r, normal n))
unfolding split_last
split_last-root p q n h = elim (Option-cases (split_last p)) [
  | inl e ↦ absurd (ground arith)
  | inr ((r, z), e) ↦ (r, ground arith, ground arith)
]

pub locate-root :
    (p : PathBuf) (k : Location)
    → locate p ≡ some k
    → (r : PathBuf) × (p ≡ root_dir ∷ r) × (descend [] r ≡ some k)
unfolding locate
locate-root (root_dir ∷ p) k h = (p, refl, h)
locate-root [] k h = absurd (ground arith)
locate-root (cur_dir ∷ p) k h = absurd (ground arith)
locate-root (parent_dir ∷ p) k h = absurd (ground arith)
locate-root (normal j ∷ p) k h = absurd (ground arith)

-- The path of the temporary file of a path leads to the temporary file of its place.
pub locate-replace_last :
    (p : PathBuf) (n s : Bytes) (k : Location)
    → last_name p ≡ some n
    → locate p ≡ some k
    → locate (replace_last (tmp_name n s) p) ≡ some (tmp_at s k)
unfolding locate replace_last tmp_at
locate-replace_last p n s k a h =
    let (q, e) = last_name-some p n a in
    let (r, u, v) = locate-root p k h in
    let (t, x, y) = split_last-root r q n (ap split_last (sym u) ∙ e) in
    let (m, b, z) = descend-split_last r t n [] k y v in
    rw (replace_last, e, x, b) (z (tmp_name n s))

append-inj : (a b x y : Bytes) → length x ≡ length y → a ++ x ≡ b ++ y → a ≡ b
append-inj [] [] x y l h = refl
append-inj (c ∷ a) (e ∷ b) x y l h =
    let t = append-inj a b x y l (ground arith) in let u : c ≡ e = ground arith in rw (t, u) refl
append-inj [] (e ∷ b) x y l h = absurd (omega (arith, ap length h, length-append b y))
append-inj (c ∷ a) [] x y l h = absurd (omega (arith, ap length h, length-append a x))

-- Temporary files of different places are different.
pub tmp_at-inj :
    (s t : Bytes) (k l : Location)
    → length s ≡ length t
    → k ≢ []
    → l ≢ []
    → tmp_at s k ≡ tmp_at t l
    → k ≡ l
unfolding tmp_at
tmp_at-inj s t [] l e a b h = absurd (a refl)
tmp_at-inj s t (n ∷ k) [] e a b h = absurd (b refl)
tmp_at-inj s t (n ∷ k) (m ∷ l) e a b h =
    let u =
      append-inj n m (codes ".tmp." ++ s) (codes ".tmp." ++ t)
        (ground (arith, length-append (codes ".tmp.") s, length-append (codes ".tmp.") t))
        (ground arith) in
    let v : k ≡ l = ground arith in rw (u, v) refl

pub tmp_at_ne : (s : Bytes) (k : Location) → k ≢ [] → tmp_at s k ≢ k
unfolding tmp_at
tmp_at_ne s [] a h = a refl
tmp_at_ne s (n ∷ k) a h =
    let e : tmp_name n s ≡ n = ground arith in
    omega (arith, ap length e, length-append n (codes ".tmp." ++ s))
