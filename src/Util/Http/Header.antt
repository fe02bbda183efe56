-- ===== src/Util/Http/Header.antt =====
-- util/http/mod.rs: `Header`, a line of the header section.
use btdt.Prelude.{
  ℕ, ◌+◌, Option, none, some, List, [], ◌∷◌, Bytes, length, take, drop, if◌then◌else◌, max,
}
use btdt.Prelude.Utf8.{chars, is_whitespace}
use btdt.Io.{ok, err}
use btdt.Util.Http.Error.{invalid_data, HttpResult, failed, panicked}
use btdt.Util.Http.Text.{find_byte, slice}

pub record Header : Type 0 where
  pub header_line : Bytes
  pub key_end : ℕ
  pub value_start : ℕ
  pub value_end : ℕ

-- `find` and `rfind` of a character that is not whitespace: the index of its first byte
unfoldable pub find_visible : ℕ → List Bytes → Option ℕ
unfolding is_whitespace
find_visible i [] = none
find_visible i (c ∷ cs) =
    let rest = find_visible (i + length c) cs in if is_whitespace c then rest else some i

unfoldable pub rfind_visible : ℕ → List Bytes → Option ℕ
unfolding is_whitespace
rfind_visible i [] = none
rfind_visible i (c ∷ cs) = elim (rfind_visible (i + length c) cs) [
  | some j ↦ some j
  | none ↦ if is_whitespace c then none else some i
]

unfoldable pub new : Bytes → HttpResult Header
unfolding find_byte chars find_visible rfind_visible invalid_data
new line = elim (find_byte b':' line) [
  | none ↦ err (failed (invalid_data "malformed header: missing colon separator"))
  | some key_end ↦
      let value_start : ℕ =
        elim (find_visible 0 (chars (drop (key_end + 1) line))) [ none ↦ 0 | some i ↦ i ]
        + key_end
        + 1 in
      ok (record {
        header_line = line;
        key_end = key_end;
        value_start = value_start;
        value_end =
            max (elim (rfind_visible 0 (chars line)) [ none ↦ length line | some i ↦ i + 1 ])
              value_start;
      })
]

unfoldable pub key : Header → Bytes
key h = take h.key_end h.header_line

unfoldable pub value : Header → HttpResult Bytes
unfolding slice
value h = elim (slice h.value_start h.value_end h.header_line) [
  | none ↦ err panicked
  | some v ↦ ok v
]
