-- ===== src/Util/Http/Body/Chunked.antt =====
-- A chunked body of util/http/mod.rs is read as it was written, however the connection cuts it into
-- segments and whatever the buffers are.
use mathlib.Core.List.{append_assoc}
use btdt.Prelude.{
  codes, ℕ, suc, ◌-◌, ◌≤◌, ◌<◌, ◌≡◌, refl, sym, ap, ◌∙◌, false, inl, inr, ◌⊎◌, none, some, List, [],
  ◌∷◌, ◌++◌, Bytes, length, concat, length-append, arith, min, AllPositive, ◌==◌,
}
use btdt.Prelude.Utf8.{trim}
use btdt.Prelude.Utf8.Ascii.{AllAscii-append, is_utf8-AllAscii}
use btdt.Io.{ok, IoResult}
use btdt.Util.Http.Hex.{
  wrap, format_hex, format_hex-AllHex, from_str_radix_16-format_hex, from_str_radix_16, parse_from,
}
use btdt.Util.Http.Text.{crlf}
use btdt.Util.Http.Body.SizeLine.{AllHex-AllAscii, AllHex-NoLf, trim-AllHex}
use btdt.Util.Http.Source
use btdt.Util.Http.Source.{Source, rest}
use btdt.Util.Http.Source.Reading.{
  read_line-append, read_exact-append, positive, read-Reads, split_prefix,
}
use btdt.Util.Http.Message.{chunked}
use btdt.Util.Http.Body.{
  Body, read, read_all, read_rest, read_chunked, read_chunk, next_chunk, chunk_result, sized,
}
use btdt.Util.Http.Body.Encoding.{encoded, AllFit}

-- The bytes that are still to come, where `w` is left of the current chunk.
abbrev pub stream_of : Bytes → List Bytes → Bytes → Bytes
stream_of [] bufs after = encoded bufs after
stream_of (c ∷ w) bufs after = (c ∷ w) ++ (crlf ++ encoded bufs after)

-- A reader in the middle of a chunked body: `w` is left of the current chunk, and then come the
-- chunks of the buffers.
pub record Pending (m : Body) (w : Bytes) (bufs : List Bytes) (after : Bytes) : Type 0 where
  pub encoding : m.transfer_encoding ≡ some chunked
  pub more : m.is_eof ≡ false
  pub calm : m.reader.failure ≡ none
  pub remaining : m.chunk_bytes_remaining ≡ length w
  pub stream : rest m.reader ≡ stream_of w bufs after

-- A call of `read` returns the next bytes of the body, and there are some until its end.
pub record Next (m' : Body) (r : IoResult Bytes) (body after : Bytes) : Type 0 where
  pub got : Bytes
  pub w : Bytes
  pub bufs : List Bytes
  pub returned : r ≡ ok got
  pub nonempty : 1 ≤ length got
  pub pending : Pending m' w bufs after
  pub fit : AllFit bufs
  pub body_eq : body ≡ got ++ (w ++ concat bufs)

left_over :
    (k n : ℕ) (got w' whole : Bytes)
    → k ≡ length whole
    → whole ≡ got ++ w'
    → k - length got ≡ length w'
left_over k n got w' whole e a = omega (arith, e, sym (length-append got w') ∙ ap length (sym a))

chunk_result-Next :
    (m : Body) (s : Source) (got w whole : Bytes) (bufs : List Bytes) (after : Bytes)
    → m.transfer_encoding ≡ some chunked
    → m.is_eof ≡ false
    → m.chunk_bytes_remaining ≡ length whole
    → whole ≡ got ++ w
    → 1 ≤ length got
    → s.failure ≡ none
    → rest s ≡ w ++ (crlf ++ encoded bufs after)
    → AllFit bufs
    → Next
        (chunk_result m (s, ok got)).0
        (chunk_result m (s, ok got)).1
        (whole ++ concat bufs)
        after
unfolding chunk_result
chunk_result-Next m s got [] whole bufs after enc more rem a pos calm e fit =
    let left : m.chunk_bytes_remaining - length got ≡ 0 = left_over _ 0 got [] whole rem a in
    let (s', x, y, z) = read_exact-append crlf (encoded bufs after) s calm e in
    rw (left, x)
      (record {
        got = got;
        w = [];
        bufs = bufs;
        returned = refl;
        nonempty = pos;
        pending = record { encoding = enc; more = more; calm = z; remaining = refl; stream = y };
        fit = fit;
        body_eq = ap (λ t. t ++ concat bufs) a ∙ append_assoc got [] (concat bufs);
      })
chunk_result-Next m s got (d ∷ w) whole bufs after enc more rem a pos calm e fit =
    let left : m.chunk_bytes_remaining - length got ≡ suc (length w) =
      left_over _ 0 got (d ∷ w) whole rem a in
    let more_left : (suc (length w) == 0) ≡ false = ground arith in
    rw (left, more_left)
      (record {
        got = got;
        w = d ∷ w;
        bufs = bufs;
        returned = refl;
        nonempty = pos;
        pending = record { encoding = enc; more = more; calm = calm; remaining = refl; stream = e };
        fit = fit;
        body_eq = ap (λ t. t ++ concat bufs) a ∙ append_assoc got (d ∷ w) (concat bufs);
      })

chunk-Next :
    (n : ℕ) (m : Body) (c : ℕ) (w : Bytes) (bufs : List Bytes) (after : Bytes)
    → 0 < n
    → AllFit bufs
    → Pending m (c ∷ w) bufs after
    → Next (read_chunk n m).0 (read_chunk n m).1 ((c ∷ w) ++ concat bufs) after
unfolding read_chunk
chunk-Next n m c w bufs after pos fit p =
    let k = min n m.chunk_bytes_remaining in
    let (got, r, h) = read-Reads k m.reader p.calm in
    let s' = (Source.read k m.reader).0 in
    let (w', a, b) =
      split_prefix got (rest s') (c ∷ w) (crlf ++ encoded bufs after) (h.split ∙ p.stream)
        (omega (arith, h.bound, p.remaining)) in
    rw r (
      chunk_result-Next m s' got w' (c ∷ w) bufs after p.encoding p.more p.remaining a
        (positive (length got) λ z. cc (h.progress (omega (arith, pos, p.remaining)) z, p.stream))
        h.calm b fit)

-- At the start of a chunk the reader reads its size first.
size-Next :
    (n : ℕ) (m : Body) (c : ℕ) (w : Bytes) (bufs : List Bytes) (after : Bytes)
    → 0 < n
    → length (c ∷ w) < wrap
    → AllFit bufs
    → Pending m [] ((c ∷ w) ∷ bufs) after
    → Next (read_chunked n m).0 (read_chunked n m).1 ((c ∷ w) ++ concat bufs) after
unfolding read_chunked next_chunk sized
size-Next n m c w bufs after pos l fit p =
    let h = format_hex (length (c ∷ w)) in
    let (a, one) = format_hex-AllHex (length (c ∷ w)) in
    let (s', x, y, z) =
      read_line-append (h ++ (b'\r' ∷ [])) ((c ∷ w) ++ (crlf ++ encoded bufs after)) m.reader p.calm
        (p.stream ∙ simp append_assoc) (AllHex-NoLf h a)
        (rw (append_assoc h (b'\r' ∷ []) (b'\n' ∷ [])) (
          is_utf8-AllAscii (h ++ crlf)
            (AllAscii-append h crlf (AllHex-AllAscii h a) (omega arith)))) in
    let line : trim ((h ++ (b'\r' ∷ [])) ++ (b'\n' ∷ [])) ≡ h =
      rw (append_assoc h (b'\r' ∷ []) (b'\n' ∷ [])) (trim-AllHex h a one) in
    let some_left : (suc (length w) == 0) ≡ false = ground arith in
    rw (p.remaining, x, line, from_str_radix_16-format_hex (length (c ∷ w)) l, some_left)
      (chunk-Next n _ c w bufs after pos fit
        (record { encoding = p.encoding; more = p.more; calm = z; remaining = refl; stream = y }))

-- The chunk of size 0 ends the body.
last_chunk-ends :
    (n : ℕ) (m : Body) (after : Bytes) → Pending m [] [] after → (read_chunked n m).1 ≡ ok []
unfolding read_chunked next_chunk sized
last_chunk-ends n m after p =
    let (s', x, y, z) =
      read_line-append (codes "0" ++ (b'\r' ∷ [])) (crlf ++ after) m.reader p.calm p.stream
        (omega arith, (omega arith, tt)) (is_utf8-AllAscii (codes "0" ++ crlf) (omega arith)) in
    let (got, r, h) = read-Reads 2 s' z in
    let zero_size : from_str_radix_16 (codes "0") ≡ some 0 =
      unfold from_str_radix_16 parse_from in refl in
    rw (p.remaining, x, trim-AllHex (codes "0") (refl, tt) (omega arith), zero_size, r) refl

read-chunked :
    (n : ℕ) (m : Body)
    → m.is_eof ≡ false
    → m.transfer_encoding ≡ some chunked
    → read n m ≡ read_chunked n m
unfolding read
read-chunked n m e t = rw (e, t)

read-Next :
    (n : ℕ) (m : Body) (w : Bytes) (bufs : List Bytes) (after : Bytes)
    → 0 < n
    → AllFit bufs
    → Pending m w bufs after
    → ((w ++ concat bufs ≡ []) × ((read n m).1 ≡ ok []))
      ⊎ Next (read n m).0 (read n m).1 (w ++ concat bufs) after
read-Next n m [] [] after pos fit p =
    rw (read-chunked n m p.more p.encoding) (inl (refl, last_chunk-ends n m after p))
read-Next n m [] ([] ∷ bufs) after pos fit p = read-Next n m [] bufs after pos fit.1 (record {
  encoding = p.encoding;
  more = p.more;
  calm = p.calm;
  remaining = p.remaining;
  stream = p.stream;
})
read-Next n m [] ((c ∷ w) ∷ bufs) after pos fit p =
    rw (read-chunked n m p.more p.encoding) (inr (size-Next n m c w bufs after pos fit.0 fit.1 p))
read-Next n m (c ∷ w) bufs after pos fit p =
    rw (read-chunked n m p.more p.encoding, inside n m c w p.remaining)
      (inr (chunk-Next n m c w bufs after pos fit p))
  where
    inside :
        (n : ℕ) (m : Body) (c : ℕ) (w : Bytes)
        → m.chunk_bytes_remaining ≡ length (c ∷ w)
        → read_chunked n m ≡ read_chunk n m
    inside n m c w e = unfold read_chunked in ground arith

pub rest_end :
    (got : Bytes) (more : IoResult Bytes) → length got ≡ 0 → read_rest (ok got) more ≡ ok []
rest_end [] more e = refl
rest_end (c ∷ got) more e = absurd (omega (arith, e))

pub rest_ok : (got more : Bytes) → 1 ≤ length got → read_rest (ok got) (ok more) ≡ ok (got ++ more)
rest_ok [] more l = absurd (omega arith)
rest_ok (c ∷ got) more l = refl

pub nil_of : (s : Bytes) → length s ≤ 0 → s ≡ []
nil_of [] l = refl
nil_of (c ∷ s) l = absurd (omega arith)

-- From the middle of a chunked body, reads with buffers that are not empty return the rest of the
-- body, if there are as many as the rest has bytes.
pub read_all-Pending :
    (sizes : List ℕ) (m : Body) (w : Bytes) (bufs : List Bytes) (after : Bytes)
    → AllPositive sizes
    → AllFit bufs
    → Pending m w bufs after
    → length (w ++ concat bufs) ≤ length sizes
    → read_all sizes m ≡ ok (w ++ concat bufs)
unfolding read_all
read_all-Pending [] m w bufs after pos fit p l = ap ok (sym (nil_of (w ++ concat bufs) l))
read_all-Pending (n ∷ sizes) m w bufs after pos fit p l =
    elim (read-Next n m w bufs after pos.0 fit p) [
      | inl (e, r) ↦ rw (r, e)
      | inr h ↦
          let shorter : length (h.w ++ concat h.bufs) ≤ length sizes = omega (
            arith,
            l,
            h.nonempty,
            ap length h.body_eq,
            length-append h.got (h.w ++ concat h.bufs),
          ) in
          rw (h.returned, read_all-Pending sizes _ h.w h.bufs after pos.1 h.fit h.pending shorter)
            (rest_ok h.got (h.w ++ concat h.bufs) h.nonempty ∙ ap ok (sym h.body_eq))
    ]
