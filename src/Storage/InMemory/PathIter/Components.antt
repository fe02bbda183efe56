-- ===== src/Storage/InMemory/PathIter/Components.antt =====
-- Which components the iterator of path_iter.rs yields, and for which path it yields given names.
use mathlib.Core.List.{append-nil}
use btdt.Prelude.{
  ◌∙◌, ap, ℕ, zero, suc, ◌<◌, ◌≡◌, ◌≢◌, refl, ◌⊎◌, inl, inr, true, false, Option, none, some, List,
  [], ◌∷◌, ◌++◌, arith, length, Bytes, if◌then◌else◌, Bool-cases,
}
use btdt.Io.{IoError, ok, err, invalid_input}
use btdt.Storage.InMemory.PathIter.{
  PathComponent, split, find_nonempty, starts_with_slash, collect, items, components,
}

-- The segments that are not empty.
abbrev pub nonempty : List Bytes → List Bytes
nonempty [] = []
nonempty ([] ∷ ws) = nonempty ws
nonempty ((c ∷ w) ∷ ws) = (c ∷ w) ∷ nonempty ws

unfoldable pub names : Bytes → List Bytes
names path = nonempty (split path)

-- The names as components: the last one is marked.
abbrev pub mark : List Bytes → List PathComponent
mark [] = []
mark (n ∷ []) = record { name = n; is_last = true } ∷ []
mark (n ∷ m ∷ ns) = record { name = n; is_last = false } ∷ mark (m ∷ ns)

abbrev ahead : Option Bytes → List Bytes → List Bytes
ahead none ws = []
ahead (some n) ws = n ∷ nonempty ws

find_nonempty-cases :
    (ws : List Bytes)
    → ((find_nonempty ws ≡ (none, [])) × (nonempty ws ≡ []))
      ⊎ ((w : Bytes) × (r : List Bytes) × (find_nonempty ws ≡ (some w, r))
          × (nonempty ws ≡ w ∷ nonempty r)
          × (length r < length ws))
unfolding find_nonempty
find_nonempty-cases [] = inl (refl, refl)
find_nonempty-cases ([] ∷ ws) = elim (find_nonempty-cases ws) [
  | inl h ↦ inl h
  | inr (w, r, e, f, l) ↦ inr (w, r, e, f, omega arith)
]
find_nonempty-cases ((c ∷ w) ∷ ws) = inr (c ∷ w, ws, refl, refl, omega arith)

collect-none : (fuel : ℕ) (ws : List Bytes) → collect fuel (record { inner = ws; next = none }) ≡ []
unfolding collect
collect-none zero ws = refl
collect-none (suc fuel) ws = refl

-- With more fuel than segments left, every component is collected.
collect-eq-mark :
    (fuel : ℕ) (ws : List Bytes) (o : Option Bytes)
    → length ws < fuel
    → collect fuel (record { inner = ws; next = o }) ≡ mark (ahead o ws)
unfolding collect
collect-eq-mark zero ws o h = elim h [ ]
collect-eq-mark (suc fuel) ws none h = refl
collect-eq-mark (suc fuel) ws (some n) h = elim (find_nonempty-cases ws) [
  | inl (e, f) ↦ rw (e, f) (rw (collect-none fuel []))
  | inr (w, r, e, f, l) ↦ rw (e, f) (rw (collect-eq-mark fuel r (some w) (omega arith)))
]

items-find_nonempty :
    (ws : List Bytes)
    → items (record { inner = (find_nonempty ws).1; next = (find_nonempty ws).0 })
      ≡ mark (nonempty ws)
unfolding items
items-find_nonempty ws = elim (find_nonempty-cases ws) [
  | inl (e, f) ↦ rw (e, f) (rw collect-none)
  | inr (w, r, e, f, l) ↦ rw (e, f) (collect-eq-mark (suc (length r)) r (some w) (omega arith))
]

abbrev pub not_absolute : IoError
not_absolute = record {
  kind = invalid_input;
  message = "Path must be absolute, i.e. start with a slash '/'";
}

-- The components of an absolute path are its segments that are not empty, in order, and only the
-- last one is marked as the last. Any other path is refused as invalid input.
pub components-eq :
    (path : Bytes)
    → components path
      ≡ (if starts_with_slash path then ok (mark (names path)) else err not_absolute)
unfolding components names
components-eq path = elim (Bool-cases (starts_with_slash path)) [
  | inl e ↦ rw e (ap ok (items-find_nonempty (split path)))
  | inr e ↦ rw e
]

-- `/` and a name, for each name
abbrev pub render : List Bytes → Bytes
render [] = []
render (n ∷ ns) = b'/' ∷ (n ++ render ns)

abbrev pub NoSlash : Bytes → Type 0
NoSlash [] = Unit
NoSlash (c ∷ s) = (c ≢ b'/') × NoSlash s

abbrev pub IsName : Bytes → Type 0
IsName n = (n ≢ []) × NoSlash n

abbrev pub AllNames : List Bytes → Type 0
AllNames [] = Unit
AllNames (n ∷ ns) = IsName n × AllNames ns

split-append : (n s : Bytes) → NoSlash n → split (n ++ (b'/' ∷ s)) ≡ n ∷ split s
unfolding split
split-append [] s h = refl
split-append (c ∷ n) s h = rw (split-append n s h.1) (ground arith)

split_name : (n : Bytes) → NoSlash n → split n ≡ n ∷ []
unfolding split
split_name [] h = refl
split_name (c ∷ n) h = rw (split_name n h.1) (ground arith)

nonempty-cons : (n : Bytes) (ws : List Bytes) → n ≢ [] → nonempty (n ∷ ws) ≡ n ∷ nonempty ws
nonempty-cons [] ws h = absurd (h refl)
nonempty-cons (c ∷ n) ws h = refl

names_slash : (s : Bytes) → names (b'/' ∷ s) ≡ nonempty (split s)
unfolding names split
names_slash s = refl

nonempty-split :
    (ns : List Bytes) (n : Bytes) → AllNames (n ∷ ns) → nonempty (split (n ++ render ns)) ≡ n ∷ ns
nonempty-split [] n h = rw (append-nil, split_name n h.0.1) (nonempty-cons n [] h.0.0)
nonempty-split (m ∷ ns) n h =
    rw (split-append n (m ++ render ns) h.0.1)
      (rw (nonempty-cons n _ h.0.0) (rw (nonempty-split ns m h.1)))

-- Names that are not empty and hold no slash are read back from the path that is made of them.
pub names-render : (ns : List Bytes) → AllNames ns → names (render ns) ≡ ns
unfolding names split
names-render [] h = refl
names-render (n ∷ ns) h = names_slash (n ++ render ns) ∙ nonempty-split ns n h
