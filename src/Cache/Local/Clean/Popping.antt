-- ===== src/Cache/Local/Clean/Popping.antt =====
-- What taking the greatest item off the heap of `LocalCache::clean` in local.rs does.
use btdt.Prelude.{
  ℕ, ◌+◌, ◌≡◌, refl, true, false, List, [], ◌∷◌, length, Bool-cases, arith, inl, inr,
}
use btdt.Storage.Interface.{Storage}
use btdt.Cache.Externals.{Externals, IsOrdered}
use btdt.Cache.Local.Clean.Gather.{Blob}
use btdt.Cache.Local.Clean.Heap.{compare, compare_access, is_greater, pop}

module _ (S : Storage) (X : Externals) where
  open X use {DateTime}

  -- Every blob of the list was used at `t` or later.
  abbrev pub AllSince : DateTime → List (Blob S X) → Type 0
  AllSince t [] = Unit
  AllSince t (b ∷ bs) = (X.at_least b.latest_access t ≡ true) × AllSince t bs

  -- What taking the greatest item off the heap does.
  pub length-pop : (b : Blob S X) (bs : List (Blob S X)) → length (pop S X b bs).1 ≡ length bs
  unfolding pop
  length-pop b [] = refl
  length-pop b (c ∷ cs) = ground (arith, length-pop c cs)

  -- Blobs weighed one by one: two lists hold the same blobs if they weigh the same by every weight.
  unfoldable pub weigh : (Blob S X → ℕ) → List (Blob S X) → ℕ
  weigh f [] = 0
  weigh f (b ∷ bs) = f b + weigh f bs

  pub weigh-pop :
      (f : Blob S X → ℕ) (b : Blob S X) (bs : List (Blob S X))
      → weigh f (b ∷ bs) ≡ f (pop S X b bs).0 + weigh f (pop S X b bs).1
  unfolding pop weigh
  weigh-pop f b [] = refl
  weigh-pop f b (c ∷ cs) = ground (arith, weigh-pop f c cs)

  pub AllSince-pop :
      (t : DateTime) (b : Blob S X) (bs : List (Blob S X))
      → AllSince t (b ∷ bs)
      → AllSince t ((pop S X b bs).0 ∷ (pop S X b bs).1)
  unfolding pop
  AllSince-pop t b [] h = h
  AllSince-pop t b (c ∷ cs) h =
      let (x, y) = AllSince-pop t c cs h.1 in
      elim (Bool-cases (is_greater S X (compare S X (pop S X c cs).0 b))) [
        | inl e ↦ rw e (x, (h.0, y))
        | inr e ↦ rw e (h.0, (x, y))
      ]

  pub pop-AllSince-back :
      (t : DateTime) (b : Blob S X) (bs : List (Blob S X))
      → AllSince t ((pop S X b bs).0 ∷ (pop S X b bs).1)
      → AllSince t (b ∷ bs)
  unfolding pop
  pop-AllSince-back t b [] = λ h. h
  pop-AllSince-back t b (c ∷ cs) =
      let back = pop-AllSince-back t c cs in
      elim (Bool-cases (is_greater S X (compare S X (pop S X c cs).0 b))) [
        | inl e ↦ rw e λ h. (h.1.0, back (h.0, h.1.1))
        | inr e ↦ rw e λ h. (h.0, back h.1)
      ]

  module _ (O : IsOrdered X) where
    pub AllSince-trans :
        (t u : DateTime) (bs : List (Blob S X))
        → X.at_least u t ≡ true
        → AllSince u bs
        → AllSince t bs
    AllSince-trans t u [] h a = tt
    AllSince-trans t u (b ∷ bs) h a =
        (O.transitive b.latest_access u t a.0 h, AllSince-trans t u bs h a.1)

    older-greater :
        (a b : Blob S X)
        → is_greater S X (compare S X a b) ≡ true
        → X.at_least b.latest_access a.latest_access ≡ true
    unfolding compare compare_access
    older-greater a b h = elim (Bool-cases (X.at_least b.latest_access a.latest_access)) [
      | inl e ↦ e
      | inr e ↦ ground (arith, O.total b.latest_access a.latest_access e)
    ]

    older-other :
        (a b : Blob S X)
        → is_greater S X (compare S X a b) ≡ false
        → X.at_least a.latest_access b.latest_access ≡ true
    unfolding compare compare_access
    older-other a b h = elim (Bool-cases (X.at_least a.latest_access b.latest_access)) [
      | inl e ↦ e
      | inr e ↦ ground arith
    ]

    -- The item that is taken off is one of the longest unused.
    pub pop-AllSince :
        (b : Blob S X) (bs : List (Blob S X))
        → AllSince (pop S X b bs).0.latest_access (pop S X b bs).1
    unfolding pop
    pop-AllSince b [] = tt
    pop-AllSince b (c ∷ cs) =
        let m = (pop S X c cs).0 in
        let a = pop-AllSince c cs in
        elim (Bool-cases (is_greater S X (compare S X m b))) [
          | inl e ↦ rw e (older-greater m b e, a)
          | inr e ↦ rw e (
            older-other m b e,
            AllSince-trans b.latest_access m.latest_access _ (older-other m b e) a,
          )
        ]
