-- ===== src/Util/Http/Body/Truncated.antt =====
-- What util/http/mod.rs reads of a chunked body where the stream ends within a chunk.
use btdt.Prelude.{
  ℕ, ◌+◌, ◌-◌, ◌≤◌, ◌<◌, ◌≡◌, refl, sym, ap, ◌∙◌, false, inl, inr, none, some, List, [], ◌∷◌, ◌++◌,
  Bytes, length, length-append, arith, min, AllPositive, ◌==◌,
}
use btdt.Io.{ok}
use btdt.Util.Http.Source
use btdt.Util.Http.Source.{Source, rest}
use btdt.Util.Http.Source.Reading.{read-Reads}
use btdt.Util.Http.Message.{chunked}
use btdt.Util.Http.Body.{Body, read, read_all, read_rest, read_chunked, read_chunk, chunk_result}
use btdt.Util.Http.Body.Chunked.{rest_ok, rest_end, nil_of}
use btdt.Util.Http.Body.Sized.{length-cases}

-- A chunk that is being read is longer than what is still to come.
pub record Truncated (m : Body) : Type 0 where
  pub encoding : m.transfer_encoding ≡ some chunked
  pub open_ : m.is_eof ≡ false
  pub calm : m.reader.failure ≡ none
  pub short : length (rest m.reader) < m.chunk_bytes_remaining

read-Truncated :
    (n : ℕ) (m : Body) (got : Bytes)
    → Truncated m
    → (Source.read (min n m.chunk_bytes_remaining) m.reader).1 ≡ ok got
    → got ++ rest (Source.read (min n m.chunk_bytes_remaining) m.reader).0 ≡ rest m.reader
    → read n m ≡ (
      record m {
        reader = (Source.read (min n m.chunk_bytes_remaining) m.reader).0;
        chunk_bytes_remaining = m.chunk_bytes_remaining - length got;
      },
      ok got,
    )
unfolding read read_chunked read_chunk chunk_result
read-Truncated n m got p r e = rw (p.open_, p.encoding, some_left, r, more_left) refl
  where
    some_left : (m.chunk_bytes_remaining == 0) ≡ false
    some_left = ground (arith, p.short)

    more_left : ((m.chunk_bytes_remaining - length got) == 0) ≡ false
    more_left = ground (
      arith,
      p.short,
      sym (length-append got (rest (Source.read (min n m.chunk_bytes_remaining) m.reader).0))
          ∙ ap length e,
    )

-- A chunked body that is cut short within a chunk reads as the bytes that came: no error tells it from
-- a body that is complete.
pub read_all-Truncated :
    (sizes : List ℕ) (m : Body)
    → AllPositive sizes
    → Truncated m
    → length (rest m.reader) ≤ length sizes
    → read_all sizes m ≡ ok (rest m.reader)
unfolding read_all
read_all-Truncated [] m pos p l = ap ok (sym (nil_of _ l))
read_all-Truncated (n ∷ sizes) m pos p l =
    let j = min n m.chunk_bytes_remaining in
    let (got, r, h) = read-Reads j m.reader p.calm in
    let s' = (Source.read j m.reader).0 in
    let whole : length got + length (rest s') ≡ length (rest m.reader) =
      sym (length-append got (rest s')) ∙ ap length h.split in
    elim (length-cases got) [
      | inl e ↦
          let none_left : rest m.reader ≡ [] = h.progress (omega (arith, pos.0, p.short)) e in
          rw (read-Truncated n m got p r h.split, none_left) (rest_end got (read_all sizes _) e)
      | inr some_bytes ↦ rw (read-Truncated n m got p r h.split) (
          ap (read_rest (ok got)) (
            read_all-Truncated sizes
              (record m {
                reader = s';
                chunk_bytes_remaining = m.chunk_bytes_remaining - length got;
              })
              pos.1
              (record {
                encoding = p.encoding;
                open_ = p.open_;
                calm = h.calm;
                short = omega (arith, whole, p.short);
              })
              (omega (arith, whole, some_bytes, l)))
          ∙ rest_ok got (rest s') some_bytes
          ∙ ap ok h.split)
    ]
