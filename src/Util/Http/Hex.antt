-- ===== src/Util/Http/Hex.antt =====
-- The sizes of chunks in util/http/mod.rs: `{:X}` of a `usize`, and `usize::from_str_radix(…, 16)`.
use btdt.Prelude.{
  ℕ, zero, suc, ◌+◌, ◌-◌, ◌*◌, ◌/◌, ◌%◌, ◌^◌, ◌<◌, ◌≡◌, true, false, Option, none, some, [], ◌∷◌,
  ◌++◌, Bytes, ltb, ◌==◌, if◌then◌else◌, arith, Bool-cases, inl, inr, ◌≤◌, ◌∙◌, ◌||◌, length,
  length-append,
}
use btdt.Prelude.Utf8.{within, is_nil}
use mathlib.Core.List.{append_assoc, append-nil}

-- `usize::MAX + 1`
abbrev pub wrap : ℕ
wrap = 18446744073709551616

abbrev pub digit : ℕ → ℕ
digit d = if ltb d 10 then d + 48 else d + 55

unfoldable pub upper_hex : ℕ → ℕ → Bytes
upper_hex zero n = []
upper_hex (suc fuel) n =
    let front = upper_hex fuel (n / 16) in
    if ltb n 16 then digit n ∷ [] else front ++ (digit (n % 16) ∷ [])

-- Sixteen digits hold 64 bits.
unfoldable pub format_hex : ℕ → Bytes
unfolding upper_hex
format_hex n = upper_hex 16 n

abbrev pub hex_value : ℕ → Option ℕ
hex_value c =
    if within 48 57 c
    then some (c - 48)
    else if within 65 70 c
    then some (c - 55)
    else if within 97 102 c
    then some (c - 87)
    else none

unfoldable pub parse_from : ℕ → Bytes → Option ℕ
parse_from n [] = some n
parse_from n (c ∷ s) = elim (hex_value c) [
  | none ↦ none
  | some d ↦ elim (ltb (n * 16 + d) wrap) [ true ↦ parse_from (n * 16 + d) s | false ↦ none ]
]

-- A sign may stand before the digits, but not alone, and a minus is refused.
unfoldable pub from_str_radix_16 : Bytes → Option ℕ
unfolding parse_from
from_str_radix_16 [] = none
from_str_radix_16 (c ∷ s) =
    if c == b'+' then (if is_nil s then none else parse_from 0 s) else parse_from 0 (c ∷ s)

parse_from-digit :
    (n d : ℕ) (s : Bytes)
    → d < 16
    → n * 16 + d < wrap
    → parse_from n (digit d ∷ s) ≡ parse_from (n * 16 + d) s
unfolding parse_from
parse_from-digit n d s h l = ground arith

parse_from-upper_hex :
    (fuel n : ℕ) (s : Bytes)
    → n < 16 ^ suc fuel
    → n < wrap
    → parse_from 0 (upper_hex (suc fuel) n ++ s) ≡ parse_from n s
unfolding upper_hex
parse_from-upper_hex zero n s h l = ground (arith, parse_from-digit 0 n s)
parse_from-upper_hex (suc fuel) n s h l = elim (Bool-cases (ltb n 16)) [
  | inl small ↦ ground (arith, parse_from-digit 0 n s)
  | inr large ↦
      let split : n / 16 * 16 + n % 16 ≡ n = omega arith in
      rw (
        large,
        append_assoc (upper_hex (suc fuel) (n / 16)) (digit (n % 16) ∷ []) s,
        parse_from-upper_hex fuel (n / 16) (digit (n % 16) ∷ s) (omega arith) (omega arith),
        parse_from-digit (n / 16) (n % 16) s (omega arith) (omega arith),
        split,
      )
]

abbrev pub AllHex : Bytes → Type 0
AllHex [] = Unit
AllHex (c ∷ s) = ((within 48 57 c || within 65 70 c) ≡ true) × AllHex s

AllHex-append : (s t : Bytes) → AllHex s → AllHex t → AllHex (s ++ t)
AllHex-append [] t h k = k
AllHex-append (c ∷ s) t h k = (h.0, AllHex-append s t h.1 k)

digit_hex : (d : ℕ) → d < 16 → (within 48 57 (digit d) || within 65 70 (digit d)) ≡ true
digit_hex d h = ground arith

upper_hex-AllHex : (fuel n : ℕ) → AllHex (upper_hex fuel n)
unfolding upper_hex
upper_hex-AllHex zero n = tt
upper_hex-AllHex (suc fuel) n = elim (Bool-cases (ltb n 16)) [
  | inl small ↦ rw small (digit_hex n (ground arith), tt)
  | inr large ↦ rw large (
      AllHex-append (upper_hex fuel (n / 16)) _ (upper_hex-AllHex fuel (n / 16))
        (digit_hex (n % 16) (omega arith), tt))
]

upper_hex-nonempty : (fuel n : ℕ) → 1 ≤ length (upper_hex (suc fuel) n)
unfolding upper_hex
upper_hex-nonempty fuel n = elim (Bool-cases (ltb n 16)) [
  | inl small ↦ rw small (omega arith)
  | inr large ↦ rw (large, length-append) (omega arith)
]

-- A size is written as hexadecimal digits, and at least one.
pub format_hex-AllHex : (n : ℕ) → AllHex (format_hex n) × (1 ≤ length (format_hex n))
unfolding format_hex
format_hex-AllHex n = (upper_hex-AllHex 16 n, upper_hex-nonempty 15 n)

radix-AllHex : (s : Bytes) → AllHex s → 1 ≤ length s → from_str_radix_16 s ≡ parse_from 0 s
unfolding from_str_radix_16
radix-AllHex [] h l = absurd (omega arith)
radix-AllHex (c ∷ s) h l = ground (arith, h.0)

parse_from-format_hex : (n : ℕ) → n < wrap → parse_from 0 (format_hex n) ≡ some n
unfolding format_hex parse_from
parse_from-format_hex n h =
    rw (← append-nil (upper_hex 16 n)) (parse_from-upper_hex 15 n [] (omega arith) h)

-- What the client writes for a size is read back as the size.
pub from_str_radix_16-format_hex : (n : ℕ) → n < wrap → from_str_radix_16 (format_hex n) ≡ some n
from_str_radix_16-format_hex n h =
    let (a, l) = format_hex-AllHex n in radix-AllHex (format_hex n) a l ∙ parse_from-format_hex n h
