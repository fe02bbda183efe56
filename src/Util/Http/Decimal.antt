-- ===== src/Util/Http/Decimal.antt =====
-- The decimal numbers of headers and status lines in util/http/mod.rs: `to_string` and `str::parse`.
use btdt.Prelude.{
  ℕ, zero, suc, ◌+◌, ◌-◌, ◌*◌, ◌/◌, ◌%◌, true, false, Option, none, some, [], ◌∷◌, ◌++◌, Bytes, ltb,
  ◌==◌, if◌then◌else◌,
}
use btdt.Prelude.Utf8.{within, is_nil}

unfoldable pub decimal : ℕ → ℕ → Bytes
decimal zero n = []
decimal (suc fuel) n =
    let front = decimal fuel (n / 10) in
    if ltb n 10 then (n + 48) ∷ [] else front ++ ((n % 10 + 48) ∷ [])

-- `usize::to_string`: twenty digits hold 64 bits.
unfoldable pub format_decimal : ℕ → Bytes
unfolding decimal
format_decimal n = decimal 20 n

-- Digits after the number `n`, below a limit.
unfoldable pub digits_from : ℕ → ℕ → Bytes → Option ℕ
digits_from limit n [] = some n
digits_from limit n (c ∷ s) = elim (within 48 57 c) [
  | false ↦ none
  | true ↦ elim (ltb (n * 10 + (c - 48)) limit) [
    | true ↦ digits_from limit (n * 10 + (c - 48)) s
    | false ↦ none
  ]
]

-- `str::parse` of an unsigned number below the limit; a plus sign may stand before the digits.
unfoldable pub parse_decimal : ℕ → Bytes → Option ℕ
unfolding digits_from
parse_decimal limit [] = none
parse_decimal limit (c ∷ s) =
    if c == b'+'
    then (if is_nil s then none else digits_from limit 0 s)
    else digits_from limit 0 (c ∷ s)
