-- ===== src/Util/Http/Text.antt =====
-- The texts of util/http/mod.rs, and what it does to them.
use btdt.Prelude.{
  ℕ, zero, suc, ◌+◌, ◌-◌, Bool, true, false, ◌&&◌, Option, none, some, [], ◌∷◌, Bytes, codes, take,
  drop, leb, ◌==◌, if◌then◌else◌,
}
use btdt.Prelude.Utf8.{within, is_char_boundary}

abbrev pub crlf : Bytes
crlf = b'\r' ∷ b'\n' ∷ []

abbrev pub http_version : Bytes
http_version = codes "HTTP/1.1"

unfoldable pub starts_with : Bytes → Bytes → Bool
starts_with [] s = true
starts_with (c ∷ p) [] = false
starts_with (c ∷ p) (d ∷ s) = c == d && starts_with p s

-- `as_bytes()[i]`; `none` is a panic.
unfoldable pub byte_at : Bytes → ℕ → Option ℕ
byte_at [] i = none
byte_at (c ∷ s) zero = some c
byte_at (c ∷ s) (suc i) = byte_at s i

-- `str::find` of an ASCII character
unfoldable pub find_byte : ℕ → Bytes → Option ℕ
find_byte c [] = none
find_byte c (d ∷ s) =
    let rest = find_byte c s in
    if d == c then some 0 else elim rest [ none ↦ none | some i ↦ some (suc i) ]

abbrev pub lower : ℕ → ℕ
lower c = if within 65 90 c then c + 32 else c

-- `eq_ignore_ascii_case`
unfoldable pub eq_ignore_ascii_case : Bytes → Bytes → Bool
eq_ignore_ascii_case [] [] = true
eq_ignore_ascii_case [] (d ∷ t) = false
eq_ignore_ascii_case (c ∷ s) [] = false
eq_ignore_ascii_case (c ∷ s) (d ∷ t) = lower c == lower d && eq_ignore_ascii_case s t

-- `&s[i..j]`; `none` is a panic.
unfoldable pub slice : ℕ → ℕ → Bytes → Option Bytes
unfolding is_char_boundary
slice i j s =
    if leb i j && is_char_boundary i s && is_char_boundary j s
    then some (take (j - i) (drop i s))
    else none
