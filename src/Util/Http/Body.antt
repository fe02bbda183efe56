-- ===== src/Util/Http/Body.antt =====
-- util/http/mod.rs: `Read for HttpMessageReader`, which reads the body of a response. A call of `read`
-- returns the bytes that it has put into a buffer of `n` bytes.
pub mod Encoding
pub mod SizeLine
pub mod Chunked
pub mod Sized
pub mod Truncated
use btdt.Prelude.{
  ℕ, zero, suc, ◌-◌, Bool, true, false, Option, none, some, List, [], ◌∷◌, ◌++◌, Bytes, length,
  ◌==◌, if◌then◌else◌, min,
}
use btdt.Prelude.Utf8.{trim, is_nil}
use btdt.Io.{ok, err, IoResult, invalid_data}
use btdt.Util.Http.Source
use btdt.Util.Http.Source.{Source}
use btdt.Util.Http.Hex.{from_str_radix_16}
use btdt.Util.Http.Message.{
  MessageReader, read_response_body, TransferEncodingType, chunked, fixed_size,
}

abbrev pub Body : Type 0
Body = MessageReader read_response_body

abbrev pub fixed_result : Body → Source × IoResult Bytes → Body × IoResult Bytes
fixed_result m (reader, err e) = (record m { reader = reader }, err e)
fixed_result m (reader, ok got) =
    let remaining : ℕ = m.chunk_bytes_remaining - length got in
    (
      record m {
        reader = reader;
        chunk_bytes_remaining = remaining;
        is_eof = if remaining == 0 then true else m.is_eof;
      },
      ok got,
    )

unfoldable pub read_fixed : ℕ → Body → Body × IoResult Bytes
read_fixed n m = fixed_result m (Source.read (min n m.chunk_bytes_remaining) m.reader)

-- The CRLF after a chunk is read when the last byte of the chunk was.
abbrev pub after_chunk : Body → Bytes → Source × IoResult Bytes → Body × IoResult Bytes
after_chunk m got (reader, err e) = (record m { reader = reader }, err e)
after_chunk m got (reader, ok crlf) = (record m { reader = reader }, ok got)

unfoldable pub chunk_result : Body → Source × IoResult Bytes → Body × IoResult Bytes
chunk_result m (reader, err e) = (record m { reader = reader }, err e)
chunk_result m (reader, ok got) =
    let remaining : ℕ = m.chunk_bytes_remaining - length got in
    let m' : Body = record m { reader = reader; chunk_bytes_remaining = remaining } in
    if remaining == 0 then after_chunk m' got (Source.read_exact 2 reader) else (m', ok got)

unfoldable pub read_chunk : ℕ → Body → Body × IoResult Bytes
read_chunk n m = chunk_result m (Source.read (min n m.chunk_bytes_remaining) m.reader)

-- The last chunk: what is read of the CRLF after it is not looked at.
abbrev pub last_chunk : Body → Source × IoResult Bytes → Body × IoResult Bytes
last_chunk m (reader, err e) = (record m { reader = reader }, err e)
last_chunk m (reader, ok crlf) = (record m { reader = reader; is_eof = true }, ok [])

-- The text of the error is without the octets.
abbrev pub bad_size : Body → Body × IoResult Bytes
bad_size m = (m, err (record { kind = invalid_data; message = "invalid chunk size" }))

unfoldable pub sized : ℕ → Body → Option ℕ → Body × IoResult Bytes
sized n m none = bad_size m
sized n m (some size) =
    let m' : Body = record m { chunk_bytes_remaining = size } in
    if size == 0 then last_chunk m' (Source.read 2 m'.reader) else read_chunk n m'

unfoldable pub next_chunk : ℕ → Body → Source × IoResult Bytes → Body × IoResult Bytes
next_chunk n m (reader, err e) = (record m { reader = reader }, err e)
next_chunk n m (reader, ok octets) =
    sized n (record m { reader = reader }) (from_str_radix_16 (trim octets))

unfoldable pub read_chunked : ℕ → Body → Body × IoResult Bytes
read_chunked n m =
    if m.chunk_bytes_remaining == 0
    then next_chunk n m (Source.read_line m.reader)
    else read_chunk n m

abbrev pub read_as : ℕ → Body → Option TransferEncodingType → Body × IoResult Bytes
read_as n m none = (record m { is_eof = true }, ok [])
read_as n m (some (fixed_size size)) = read_fixed n m
read_as n m (some chunked) = read_chunked n m

unfoldable pub read : ℕ → Body → Body × IoResult Bytes
read n m = if m.is_eof then (m, ok []) else read_as n m m.transfer_encoding

-- `Read::read_to_end` and the like: reads with buffers of the given sizes, until one returns nothing.
abbrev pub read_rest : IoResult Bytes → IoResult Bytes → IoResult Bytes
read_rest (err e) more = err e
read_rest (ok []) more = ok []
read_rest (ok (c ∷ got)) (ok more) = ok ((c ∷ got) ++ more)
read_rest (ok (c ∷ got)) (err e) = err e

unfoldable pub read_all : List ℕ → Body → IoResult Bytes
read_all [] m = ok []
read_all (n ∷ sizes) m = let (m', r) = read n m in let rest = read_all sizes m' in read_rest r rest
