-- ===== src/Cli/Hashing/Sorting.antt =====
-- The order of file names in btdt-cli/src/hashing.rs, and sorting by it.
use btdt.Prelude.{
  ◌≡◌, ◌≢◌, ◌⊎◌, inl, inr, refl, sym, ap, ◌∙◌, true, false, Bool-cases, List, [], ◌∷◌, Bytes, arith,
  ℕ, ◌<◌,
}
use btdt.Cli.Hashing.{name_lt, insert, HashResult}

name_lt_asym : (s t : Bytes) → name_lt s t ≡ true → name_lt t s ≡ false
unfolding name_lt
name_lt_asym [] [] h = refl
name_lt_asym [] (d ∷ t) h = refl
name_lt_asym (c ∷ s) [] h = absurd (ground (arith, h))
name_lt_asym (c ∷ s) (d ∷ t) h = ground (arith, h, name_lt_asym s t)

name_lt_trans : (r s t : Bytes) → name_lt r s ≡ true → name_lt s t ≡ true → name_lt r t ≡ true
unfolding name_lt
name_lt_trans [] [] t a b = b
name_lt_trans [] (c ∷ s) [] a b = b
name_lt_trans [] (c ∷ s) (d ∷ t) a b = refl
name_lt_trans (x ∷ r) [] t a b = absurd (ground (arith, a))
name_lt_trans (x ∷ r) (c ∷ s) [] a b = b
name_lt_trans (x ∷ r) (c ∷ s) (d ∷ t) a b = ground (arith, a, b, name_lt_trans r s t)

name_lt_total : (s t : Bytes) → s ≢ t → (name_lt s t ≡ true) ⊎ (name_lt t s ≡ true)
unfolding name_lt
name_lt_total [] [] n = absurd (n refl)
name_lt_total [] (d ∷ t) n = inl refl
name_lt_total (c ∷ s) [] n = inr refl
name_lt_total (c ∷ s) (d ∷ t) n = elim (ℕ_cases c d) [
  | inl e ↦ elim (name_lt_total s t λ z. n (cc (e, z))) [
    | inl h ↦ inl (ground (arith, e, h))
    | inr h ↦ inr (ground (arith, e, h))
  ]
  | inr (inl e) ↦ inl (ground (arith, e))
  | inr (inr e) ↦ inr (ground (arith, e))
]
  where
    ℕ_cases : (c d : ℕ) → (c ≡ d) ⊎ ((c < d) ⊎ (d < c))
    ℕ_cases c d = omega arith

abbrev Named : Type 0
Named = Bytes × HashResult

insert-after :
    (x z : Named) (l : List Named) → name_lt z.0 x.0 ≡ true → insert x (z ∷ l) ≡ z ∷ insert x l
unfolding insert
insert-after x z l h = rw h refl

insert-first :
    (x z : Named) (l : List Named) → name_lt z.0 x.0 ≡ false → insert x (z ∷ l) ≡ x ∷ z ∷ l
unfolding insert
insert-first x z l h = rw h refl

-- Two insertions of different names can change places.
insert-lt :
    (x y : Named) (l : List Named)
    → name_lt x.0 y.0 ≡ true
    → insert x (insert y l) ≡ insert y (insert x l)
unfolding insert
insert-lt x y [] h = insert-first x y [] (name_lt_asym x.0 y.0 h) ∙ sym (insert-after y x [] h)
insert-lt x y (z ∷ l) h = elim (Bool-cases (name_lt z.0 x.0)) [
  | inl a ↦
      let b = name_lt_trans z.0 x.0 y.0 a h in
      ap (insert x) (insert-after y z l b)
      ∙ insert-after x z (insert y l) a
      ∙ ap (λ r. z ∷ r) (insert-lt x y l h)
      ∙ sym (insert-after y z (insert x l) b)
      ∙ ap (insert y) (sym (insert-after x z l a))
  | inr a ↦
      let moved = sym (insert-after y x (z ∷ l) h) ∙ ap (insert y) (sym (insert-first x z l a)) in
      elim (Bool-cases (name_lt z.0 y.0)) [
        | inl b ↦
            ap (insert x) (insert-after y z l b)
            ∙ insert-first x z (insert y l) a
            ∙ ap (λ r. x ∷ r) (sym (insert-after y z l b))
            ∙ moved
        | inr b ↦
            ap (insert x) (insert-first y z l b)
            ∙ insert-first x y (z ∷ l) (name_lt_asym x.0 y.0 h)
            ∙ ap (λ r. x ∷ r) (sym (insert-first y z l b))
            ∙ moved
      ]
]

pub insert-swap :
    (x y : Bytes × HashResult) (l : List (Bytes × HashResult))
    → x.0 ≢ y.0
    → insert x (insert y l) ≡ insert y (insert x l)
insert-swap x y l n = elim (name_lt_total x.0 y.0 n) [
  | inl h ↦ insert-lt x y l h
  | inr h ↦ sym (insert-lt y x l h)
]
