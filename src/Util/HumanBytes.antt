-- ===== src/Util/HumanBytes.antt =====
-- util/humanbytes.rs: the parser of byte sizes. A `str` is the list of its code points: the parser
-- cuts it at ASCII characters alone. Products and sums wrap at 64 bits.
pub mod Scanning
mod Tests
use btdt.Prelude.{
  ℕ, zero, suc, ◌+◌, ◌-◌, ◌*◌, ◌%◌, Bool, true, false, ◌&&◌, ◌||◌, List, [], ◌∷◌, codes, length,
  leb, ltb, ◌==◌, if◌then◌else◌, bytes_dec, ite,
}
use btdt.Io.{Result, ok, err, ◌>>=◌, map_err}

abbrev pub Text : Type 0
Text = List ℕ

-- `std::num::IntErrorKind`, as far as a token of digits can lead to it
pub data ParseIntError : Type 0 where
  empty pos_overflow : ParseIntError

pub data ParserError : Type 0 where
  parse_int_error : ParseIntError → ParserError
  invalid_unit_prefix : Text → ParserError
  only_whitespace : ParserError
  -- The model's own: the loop ran out of fuel.
  out_of_fuel : ParserError

-- `u64::MAX + 1`
abbrev pub wrap : ℕ
wrap = 18446744073709551616

abbrev pub within : ℕ → ℕ → ℕ → Bool
within low high c = leb low c && leb c high

abbrev pub is_ascii_whitespace : ℕ → Bool
is_ascii_whitespace c = within 9 10 c || within 12 13 c || c == 32

abbrev pub is_ascii_digit : ℕ → Bool
is_ascii_digit c = within 48 57 c

abbrev pub is_ascii_alphabetic : ℕ → Bool
is_ascii_alphabetic c = within 65 90 c || within 97 122 c

-- `char::is_whitespace`, which `str::trim` takes off at both ends
abbrev pub is_whitespace : ℕ → Bool
is_whitespace c =
    within 9 13 c
    || c == 32
    || c == 133
    || c == 160
    || c == 5760
    || within 8192 8202 c
    || within 8232 8233 c
    || c == 8239
    || c == 8287
    || c == 12288

unfoldable pub trim_start : Text → Text
trim_start [] = []
trim_start (c ∷ s) = let rest = trim_start s in if is_whitespace c then rest else c ∷ s

abbrev pub is_empty : Text → Bool
is_empty [] = true
is_empty (c ∷ s) = false

unfoldable pub trim_end : Text → Text
trim_end [] = []
trim_end (c ∷ s) =
    let rest = trim_end s in if is_empty rest && is_whitespace c then [] else c ∷ rest

-- `next_token`, and what follows it
unfoldable pub next_token : (ℕ → Bool) → Text → Text × Text
next_token predicate [] = ([], [])
next_token predicate (c ∷ s) =
    let (token, rest) = next_token predicate s in
    if predicate c then (c ∷ token, rest) else ([], c ∷ s)

-- `str::parse::<u64>` of a token of digits
unfoldable pub parse_from : ℕ → Text → Result ℕ ParseIntError
parse_from n [] = ok n
parse_from n (c ∷ s) =
    let m = n * 10 + (c - 48) in
    let rest = parse_from m s in if ltb m wrap then rest else err pos_overflow

unfoldable pub parse_u64 : Text → Result ℕ ParseIntError
unfolding parse_from
parse_u64 [] = err empty
parse_u64 (c ∷ s) = parse_from 0 (c ∷ s)

-- `prefix.strip_suffix("B").unwrap_or(prefix)`
unfoldable pub strip_b : Text → Text
strip_b [] = []
strip_b (c ∷ s) = let rest = strip_b s in if is_empty s && c == b'B' then [] else c ∷ rest

-- The arms of the `match`, in their order.
abbrev pub units : List (Text × ℕ)
units =
    (codes "", 1)
    ∷ (codes "k", 1000)
    ∷ (codes "K", 1000)
    ∷ (codes "M", 1000000)
    ∷ (codes "G", 1000000000)
    ∷ (codes "T", 1000000000000)
    ∷ (codes "P", 1000000000000000)
    ∷ (codes "E", 1000000000000000000)
    ∷ (codes "Ki", 1024)
    ∷ (codes "Mi", 1048576)
    ∷ (codes "Gi", 1073741824)
    ∷ (codes "Ti", 1099511627776)
    ∷ (codes "Pi", 1125899906842624)
    ∷ (codes "Ei", 1152921504606846976)
    ∷ []

unfoldable pub find_unit : Text → Text → List (Text × ℕ) → Result ℕ ParserError
find_unit prefix name [] = err (invalid_unit_prefix prefix)
find_unit prefix name ((unit, factor) ∷ rest) =
    ite (bytes_dec unit name) (ok factor) (find_unit prefix name rest)

unfoldable pub parse_unit_prefix_from_str : Text → Result ℕ ParserError
unfolding strip_b find_unit
parse_unit_prefix_from_str prefix = find_unit prefix (strip_b prefix) units

-- One turn of the loop, from the value on: the amount, and what is left of the input.
unfoldable pub next_amount : Text → Result ℕ ParserError × Text
unfolding next_token parse_u64 parse_unit_prefix_from_str
next_amount s =
    let (value_token, s1) = next_token is_ascii_digit s in
    let (_, s2) = next_token is_ascii_whitespace s1 in
    let (unit_prefix_token, s3) = next_token is_ascii_alphabetic s2 in
    (
      (do
        value_factor ← map_err parse_int_error (parse_u64 value_token)
        unit_prefix_factor ← parse_unit_prefix_from_str unit_prefix_token
        ok (value_factor * unit_prefix_factor % wrap)),
      s3,
    )

-- The `while` loop. A turn that does not fail takes a digit off the input.
unfoldable pub scan : ℕ → Text → ℕ → Result ℕ ParserError
unfolding next_token next_amount
scan zero s accumulator = err out_of_fuel
scan (suc fuel) s accumulator =
    let s0 = (next_token is_ascii_whitespace s).1 in
    let (amount, rest) = next_amount s0 in
    if is_empty s0
    then ok accumulator
    else (amount >>= λ n. scan fuel rest ((accumulator + n) % wrap))

unfoldable pub parse_bytes_from_str : Text → Result ℕ ParserError
unfolding trim_start trim_end scan
parse_bytes_from_str input =
    let s = trim_end (trim_start input) in
    if is_empty s then err only_whitespace else scan (suc (length s)) s 0
