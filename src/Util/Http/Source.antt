-- ===== src/Util/Http/Source.antt =====
-- The `BufRead` that util/http/mod.rs reads a response from: the bytes arrive in segments, cut
-- anywhere, and after them comes the end of the stream or an error of the connection.
pub mod Reading
use btdt.Prelude.{
  ℕ, zero, suc, ◌-◌, Bool, true, false, Option, none, some, List, [], ◌∷◌, ◌++◌, Bytes, length,
  take, drop, concat, ◌==◌, if◌then◌else◌, ◌&&◌,
}
use btdt.Prelude.Utf8.{is_utf8, is_nil}
use btdt.Io.{IoError, IoResult, ok, err, invalid_data, unexpected_eof}

pub record Source : Type 0 where
  pub segments : List Bytes
  pub failure : Option IoError

-- What is still to come.
abbrev pub rest : Source → Bytes
rest s = concat s.segments

unfoldable pub take_from : ℕ → List Bytes → Bytes × List Bytes
take_from n [] = ([], [])
take_from n ([] ∷ ws) = take_from n ws
take_from n ((c ∷ w) ∷ ws) = (take n (c ∷ w), drop n (c ∷ w) ∷ ws)

-- Nothing came: the end, or the error.
abbrev pub at_end : {A : Type 0} → A → Option IoError → IoResult A
at_end a none = ok a
at_end a (some e) = err e

-- `Read::read` with a buffer of `n` bytes: the bytes that it has read
unfoldable pub read : ℕ → Source → Source × IoResult Bytes
unfolding take_from
read n s =
    let (got, ws) = take_from n s.segments in
    if n == 0
    then (s, ok [])
    else (record s { segments = ws }, if is_nil got then at_end [] s.failure else ok got)

abbrev pub prepend : Bytes → Source × IoResult Bytes → Source × IoResult Bytes
prepend got (s, ok more) = (s, ok (got ++ more))
prepend got (s, err e) = (s, err e)

abbrev pub exact_step :
    IoResult Bytes → Source → (Bytes → Source × IoResult Bytes) → Source × IoResult Bytes
exact_step (err e) s more = (s, err e)
exact_step (ok []) s more =
    (s, err (record { kind = unexpected_eof; message = "failed to fill whole buffer" }))
exact_step (ok (c ∷ got)) s more = prepend (c ∷ got) (more (c ∷ got))

unfoldable pub read_exactly : ℕ → ℕ → Source → Source × IoResult Bytes
read_exactly fuel zero s = (s, ok [])
read_exactly zero (suc n) s =
    (s, err (record { kind = unexpected_eof; message = "failed to fill whole buffer" }))
read_exactly (suc fuel) (suc n) s =
    let (s', r) = read (suc n) s in exact_step r s' λ got. read_exactly fuel (suc n - length got) s'

-- `Read::read_exact`: every read but a last one yields a byte.
unfoldable pub read_exact : ℕ → Source → Source × IoResult Bytes
unfolding read_exactly
read_exact n s = read_exactly n n s

-- A text up to its first line feed, with it, and what follows it if there is one.
unfoldable pub cut_line : Bytes → Bytes × Option Bytes
cut_line [] = ([], none)
cut_line (c ∷ s) =
    let (line, after) = cut_line s in if c == b'\n' then (c ∷ [], some s) else (c ∷ line, after)

-- The line, the segments after it, and whether it has its line feed.
unfoldable pub take_line : List Bytes → Bytes × List Bytes × Bool
unfolding cut_line
take_line [] = ([], [], false)
take_line (w ∷ ws) =
    let (line, after) = cut_line w in
    elim after [
      | some w' ↦ (line, w' ∷ ws, true)
      | none ↦ let (more, ws', found) = take_line ws in (line ++ more, ws', found)
    ]

abbrev pub checked : Bytes → IoResult Bytes
checked line =
    if is_utf8 line
    then ok line
    else err (record { kind = invalid_data; message = "stream did not contain valid UTF-8" })

abbrev pub line_result : Bytes → Bool → Option IoError → IoResult Bytes
line_result line false (some e) = err e
line_result line found failure = checked line

-- `BufRead::read_line`
unfoldable pub read_line : Source → Source × IoResult Bytes
unfolding take_line is_utf8
read_line s =
    let (line, ws, found) = take_line s.segments in
    (record s { segments = ws }, line_result line found s.failure)
