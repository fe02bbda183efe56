-- ===== src/Cache/Dispatcher/Numbered.antt =====
-- The worlds of the caches behind cache/cache_dispatcher.rs, by the numbers of the caches.
use mathlib.Core.Path.{fun_ext}
use btdt.Prelude.{ℕ, ◌≡◌, refl, false, arith, ◌==◌, if◌then◌else◌, Bool-cases, inl, inr}

unfoldable pub put_at : {A : Type 0} → ℕ → A → (ℕ → A) → ℕ → A
put_at i a f j = if i == j then a else f j

pub put_at_self : {A : Type 0} (i : ℕ) (a : A) (f : ℕ → A) → put_at i a f i ≡ a
unfolding put_at
put_at_self i a f = elim (Bool-cases (i == i)) [
  | inl h ↦ rw (put_at, h) refl
  | inr h ↦ absurd (ground arith)
]

-- The world of another cache is what it was.
pub put_at_other :
    {A : Type 0} (i j : ℕ) (a : A) (f : ℕ → A) → (i == j) ≡ false → put_at i a f j ≡ f j
unfolding put_at
put_at_other i j a f h = rw (put_at, h) refl

put_at_twice_at :
    {A : Type 0} (i j : ℕ) (a b : A) (f : ℕ → A) → put_at i b (put_at i a f) j ≡ put_at i b f j
unfolding put_at
put_at_twice_at i j a b f = elim (Bool-cases (i == j)) [
  | inl h ↦ rw (put_at, h) refl
  | inr h ↦ rw (put_at, h) refl
]

pub put_at_twice :
    {A : Type 0} (i : ℕ) (a b : A) (f : ℕ → A) → put_at i b (put_at i a f) ≡ put_at i b f
put_at_twice i a b f = fun_ext λ j. put_at_twice_at i j a b f

put_at_same_at : {A : Type 0} (i j : ℕ) (f : ℕ → A) → put_at i (f i) f j ≡ f j
unfolding put_at
put_at_same_at i j f = elim (Bool-cases (i == j)) [
  | inl h ↦ let e : i ≡ j = ground (arith, h) in rw (put_at, h, e) refl
  | inr h ↦ rw (put_at, h) refl
]

pub put_at_same : {A : Type 0} (i : ℕ) (f : ℕ → A) → put_at i (f i) f ≡ f
put_at_same i f = fun_ext λ j. put_at_same_at i j f
