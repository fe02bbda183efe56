-- ===== src/Util/Http/Status.antt =====
-- util/http/mod.rs: `HttpStatus`, the status line of a response.
use btdt.Prelude.{
  ℕ, Bool, true, false, not, ◌&&◌, Option, none, some, [], ◌∷◌, Bytes, take, drop, ◌==◌,
  if◌then◌else◌, String,
}
use btdt.Prelude.Utf8.{within, trim_end}
use btdt.Io.{ok, err}
use btdt.Util.Http.Error.{invalid_data, HttpResult, failed, panicked}
use btdt.Util.Http.Text.{http_version, starts_with, byte_at}
use btdt.Util.Http.Decimal.{parse_decimal}

pub record HttpStatus : Type 0 where
  pub status_line : Bytes

abbrev pub refuse : {A : Type 0} → String → HttpResult A
refuse msg = err (failed (invalid_data msg))

-- `HttpStatus::code`
unfoldable pub code : HttpStatus → Bytes
code s = take 3 (drop 9 s.status_line)

unfoldable pub all_digits : Bytes → Bool
all_digits [] = true
all_digits (c ∷ s) = within 48 57 c && all_digits s

-- The byte is a space.
abbrev pub is_space : Option ℕ → Option Bool
is_space none = none
is_space (some b) = some (b == 32)

-- The `||` of the two tests: the second byte is read if the first is a space.
abbrev pub separated : Option Bool → Option Bool → Option Bool
separated none second = none
separated (some false) second = some false
separated (some true) second = second

unfoldable pub new : Bytes → HttpResult HttpStatus
unfolding starts_with byte_at code all_digits invalid_data
new line =
    if not (starts_with http_version line)
    then refuse "unsupported HTTP version"
    else elim (separated (is_space (byte_at line 8)) (is_space (byte_at line 12))) [
      | none ↦ err panicked
      | some false ↦ refuse "malformed status line"
      | some true ↦
          let status : HttpStatus = record { status_line = line } in
          if all_digits (code status) then ok status else refuse "invalid HTTP status code"
    ]

-- `HttpStatus::code_u16`; `none` is a panic.
unfoldable pub code_u16 : HttpStatus → Option ℕ
unfolding code parse_decimal
code_u16 s = parse_decimal 65536 (code s)

unfoldable pub is_success : HttpStatus → Option Bool
unfolding code byte_at
is_success s = elim (byte_at (code s) 0) [ none ↦ none | some b ↦ some (b == b'2') ]

unfoldable pub reason : HttpStatus → Bytes
unfolding trim_end
reason s = trim_end (drop 13 s.status_line)
