-- ===== src/Storage/InMemory/PathIter.antt =====
-- storage/in_memory/path_iter.rs: the iterator over the components of an absolute path.
pub mod Components
use mathlib.Core.Option
use btdt.Prelude.{
  ℕ, zero, suc, ◌≡◌, refl, Bool, true, false, Option, none, some, List, [], ◌∷◌, length, Bytes,
  codes, ◌==◌, if◌then◌else◌,
}
use btdt.Io.{IoResult, ok, err, ◌>>=◌, invalid_input}

pub record PathComponent : Type 0 where
  pub name : Bytes
  pub is_last : Bool

-- `inner` is what is left of `str::split`.
pub record PathIter : Type 0 where
  pub inner : List Bytes
  pub next : Option Bytes

-- `str::split('/')`
abbrev push_front : ℕ → List Bytes → List Bytes
push_front c [] = (c ∷ []) ∷ []
push_front c (w ∷ ws) = (c ∷ w) ∷ ws

unfoldable pub split : Bytes → List Bytes
split [] = [] ∷ []
split (c ∷ s) = let rest = split s in if c == b'/' then [] ∷ rest else push_front c rest

-- `inner.find(|c| !c.is_empty())`, with what it leaves of the iterator
unfoldable pub find_nonempty : List Bytes → Option Bytes × List Bytes
find_nonempty [] = (none, [])
find_nonempty ([] ∷ ws) = find_nonempty ws
find_nonempty ((c ∷ w) ∷ ws) = (some (c ∷ w), ws)

abbrev pub starts_with_slash : Bytes → Bool
starts_with_slash [] = false
starts_with_slash (c ∷ s) = c == b'/'

unfoldable pub path_components : Bytes → IoResult PathIter
unfolding split find_nonempty
path_components path =
    if starts_with_slash path
    then (let (found, rest) = find_nonempty (split path) in
        ok (record { inner = rest; next = found }))
    else err (record {
      kind = invalid_input;
      message = "Path must be absolute, i.e. start with a slash '/'";
    })

abbrev is_none {ℓ} : {A : Type ℓ} → Option A → Bool
is_none none = true
is_none (some a) = false

unfoldable pub next : PathIter → Option PathComponent × PathIter
unfolding find_nonempty
next it =
    let (found, rest) = find_nonempty it.inner in
    (
      Option.map (λ name. record { name = name; is_last = is_none found }) it.next,
      record { inner = rest; next = found },
    )

-- The items of the iterator. Each step but the last takes a segment off `inner`.
unfoldable pub collect : ℕ → PathIter → List PathComponent
unfolding next
collect zero it = []
collect (suc fuel) it =
    let (item, it') = next it in
    let rest = collect fuel it' in elim item [ none ↦ [] | some c ↦ c ∷ rest ]

unfoldable pub items : PathIter → List PathComponent
unfolding collect
items it = collect (suc (length it.inner)) it

-- What the loops of the storage range over.
unfoldable pub components : Bytes → IoResult (List PathComponent)
unfolding path_components items
components path = do it ← path_components path; ok (items it)

components_run :
    components (codes "/foo///bar/")
    ≡ ok (
        record { name = codes "foo"; is_last = false }
        ∷ record { name = codes "bar"; is_last = true }
        ∷ [])
unfolding components
components_run = refl
