-- ===== src/Cache/Local/Clean/Order.antt =====
-- cache/local.rs: `std::cmp::Ordering`, and the orders of the types under the derived `Ord`.
use btdt.Prelude.{ℕ, List, [], ◌∷◌, Bytes, ltb, if◌then◌else◌}

pub data Ordering : Type 0 where
  less equal greater : Ordering

-- `Ordering::then`
abbrev pub then_by : Ordering → Ordering → Ordering
then_by less o = less
then_by equal o = o
then_by greater o = greater

abbrev pub compare_nat : ℕ → ℕ → Ordering
compare_nat a b = if ltb a b then less else if ltb b a then greater else equal

-- Lists are compared item by item; a proper prefix is less.
unfoldable pub compare_list {ℓ} : {A : Type ℓ} → (A → A → Ordering) → List A → List A → Ordering
compare_list f [] [] = equal
compare_list f [] (b ∷ bs) = less
compare_list f (a ∷ as_) [] = greater
compare_list f (a ∷ as_) (b ∷ bs) = then_by (f a b) (compare_list f as_ bs)

unfoldable pub compare_bytes : Bytes → Bytes → Ordering
unfolding compare_list
compare_bytes = compare_list compare_nat

unfoldable pub compare_keys : List Bytes → List Bytes → Ordering
unfolding compare_list compare_bytes
compare_keys = compare_list compare_bytes
