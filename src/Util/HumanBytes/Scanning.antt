-- ===== src/Util/HumanBytes/Scanning.antt =====
-- The loop of humanbytes.rs comes to its end before its fuel does.
use btdt.Prelude.{
  ℕ, zero, suc, ◌+◌, ◌*◌, ◌%◌, ◌≤◌, ◌<◌, ◌≡◌, ◌≢◌, List, refl, Bool, true, false, [], ◌∷◌, length,
  arith, if◌then◌else◌, Bool-cases, inl, inr,
}
use btdt.Io.{Result, ok, err, ◌>>=◌, map_err, Result-cases}
use btdt.Util.HumanBytes.{
  Text, ParserError, out_of_fuel, find_unit, units, parse_unit_prefix_from_str, parse_int_error,
  trim_start, trim_end, ParseIntError, wrap, next_token, is_ascii_digit, is_ascii_whitespace,
  is_ascii_alphabetic, parse_u64, next_amount, scan, parse_bytes_from_str, is_empty,
}

length-next_token :
    (p : ℕ → Bool) (s : Text) → length (next_token p s).0 + length (next_token p s).1 ≡ length s
unfolding next_token
length-next_token p [] = omega arith
length-next_token p (c ∷ s) = ground (arith, length-next_token p s)

-- A token that is a number is not empty.
parse_u64-nonempty : (s : Text) (n : ℕ) → parse_u64 s ≡ ok n → 1 ≤ length s
unfolding parse_u64
parse_u64-nonempty [] n h = cc
parse_u64-nonempty (c ∷ s) n h = omega arith

next_amount-shorter :
    (s : Text) (n : ℕ) → (next_amount s).0 ≡ ok n → length (next_amount s).1 < length s
unfolding next_amount
next_amount-shorter s n h =
    let (value_token, s1) = next_token is_ascii_digit s in
    let s2 = (next_token is_ascii_whitespace s1).1 in
    elim (Result-cases (parse_u64 value_token)) [
      | inl (v, e) ↦ omega (
        arith,
        parse_u64-nonempty value_token v e,
        length-next_token is_ascii_digit s,
        length-next_token is_ascii_whitespace s1,
        length-next_token is_ascii_alphabetic s2,
      )
      | inr (x, e) ↦ absurd (refused value_token _ x n e h)
    ]
  where
    refused :
        (token : Text) (k : ℕ → Result ℕ ParserError) (x : ParseIntError) (n : ℕ)
        → parse_u64 token ≡ err x
        → (map_err parse_int_error (parse_u64 token) >>= k) ≡ ok n
        → ⊥
    refused token k x n e h = ground arith

find_unit-ends :
    (prefix name : Text) (us : List (Text × ℕ)) → find_unit prefix name us ≢ err out_of_fuel
unfolding find_unit
find_unit-ends prefix name [] h = cc h
find_unit-ends prefix name ((unit, factor) ∷ us) h = ground (arith, find_unit-ends prefix name us)

next_amount-ends : (s : Text) → (next_amount s).0 ≢ err out_of_fuel
unfolding next_amount parse_unit_prefix_from_str
next_amount-ends s h =
    let (value_token, s1) = next_token is_ascii_digit s in
    let s2 = (next_token is_ascii_whitespace s1).1 in
    product (parse_u64 value_token) (find_unit _ _ units) (find_unit-ends _ _ units) h
  where
    product :
        (value : Result ℕ ParseIntError) (factor : Result ℕ ParserError)
        → factor ≢ err out_of_fuel
        → (map_err parse_int_error value >>= λ v. factor >>= λ f. ok (v * f % wrap))
          ≢ err out_of_fuel
    product (err e) factor a h = cc h
    product (ok v) (err e) a h = a h
    product (ok v) (ok f) a h = cc h

abbrev turn : Bool → ℕ → Result ℕ ParserError → (ℕ → Result ℕ ParserError) → Result ℕ ParserError
turn ends accumulator amount more = if ends then ok accumulator else (amount >>= more)

turn-ends :
    (ends : Bool) (accumulator : ℕ) (amount : Result ℕ ParserError)
    (more : ℕ → Result ℕ ParserError)
    → amount ≢ err out_of_fuel
    → ((n : ℕ) → amount ≡ ok n → more n ≢ err out_of_fuel)
    → turn ends accumulator amount more ≢ err out_of_fuel
turn-ends true accumulator amount more a m h = cc h
turn-ends false accumulator (ok n) more a m h = m n refl h
turn-ends false accumulator (err e) more a m h = a h

-- The loop ends within a turn for every character and one more: it does not run out of fuel.
scan-ends :
    (fuel : ℕ) (s : Text) (accumulator : ℕ)
    → length s < fuel
    → scan fuel s accumulator ≢ err out_of_fuel
unfolding scan next_token
scan-ends zero s accumulator f = absurd (omega arith)
scan-ends (suc fuel) s accumulator f =
    let s0 = (next_token is_ascii_whitespace s).1 in
    let rest = (next_amount s0).1 in
    turn-ends (is_empty s0) accumulator (next_amount s0).0 _ (next_amount-ends s0) λ n e.
      let shorter : length rest < length s =
        omega (arith, next_amount-shorter s0 n e, length-next_token is_ascii_whitespace s) in
      scan-ends fuel rest ((accumulator + n) % wrap) (omega (arith, f))

-- The parser ends on every input: its loop reaches the end of the input or fails within the turns that
-- it is given, one for every character and one more.
pub parse_bytes_from_str-ends : (input : Text) → parse_bytes_from_str input ≢ err out_of_fuel
unfolding parse_bytes_from_str
parse_bytes_from_str-ends input h =
    let s = trim_end (trim_start input) in
    elim (Bool-cases (is_empty s)) [
      | inl e ↦ ground arith
      | inr e ↦ scan-ends (suc (length s)) s 0 (omega arith) (ground arith)
    ]
