-- ===== src/Util/Http/Body/Sized.antt =====
-- What util/http/mod.rs reads of a body of a fixed size, and of a body that is cut short.
use btdt.Prelude.{
  ◌⊎◌, ℕ, zero, suc, ◌-◌, ◌≤◌, ◌<◌, ◌≡◌, refl, sym, ap, ◌∙◌, true, false, Bool-cases, inl, inr,
  none, some, List, [], ◌∷◌, ◌++◌, Bytes, length, length-append, take, take-append_le, arith, min,
  AllPositive, ◌==◌,
}
use btdt.Io.{ok}
use btdt.Util.Http.Source
use btdt.Util.Http.Source.{Source, rest}
use btdt.Util.Http.Source.Reading.{read-Reads}
use btdt.Util.Http.Message.{fixed_size}
use btdt.Util.Http.Body.{Body, read, read_all, read_rest, read_fixed, fixed_result}
use btdt.Util.Http.Body.Chunked.{rest_ok, rest_end, nil_of}

read_all-is_eof : (sizes : List ℕ) (m : Body) → m.is_eof ≡ true → read_all sizes m ≡ ok []
unfolding read_all read
read_all-is_eof [] m e = refl
read_all-is_eof (n ∷ sizes) m e = rw e

-- A body of a fixed size that is being read: `k` bytes are left.
pub record Sized (m : Body) (k : ℕ) : Type 0 where
  pub size : ℕ
  pub encoding : m.transfer_encoding ≡ some (fixed_size size)
  pub calm : m.reader.failure ≡ none
  pub remaining : m.chunk_bytes_remaining ≡ k
  pub open_ : m.is_eof ≡ false

read-Sized :
    (n k : ℕ) (m : Body) (got : Bytes)
    → Sized m k
    → (Source.read (min n m.chunk_bytes_remaining) m.reader).1 ≡ ok got
    → read n m ≡ fixed_result m ((Source.read (min n m.chunk_bytes_remaining) m.reader).0, ok got)
unfolding read read_fixed
read-Sized n k m got p r = rw (p.open_, p.encoding, r)

-- What is left after a read of some bytes.
left_over :
    (k : ℕ) (got : Bytes) (s s' : Source)
    → got ++ rest s' ≡ rest s
    → length got ≤ k
    → take k (rest s) ≡ got ++ take (k - length got) (rest s')
left_over k got s s' e l = rw (← e) (take-append_le k got (rest s') l)

after_read :
    (sizes : List ℕ) (m : Body) (k : ℕ) (s' : Source) (got : Bytes)
    → Sized m k
    → s'.failure ≡ none
    → 1 ≤ length got
    → (Sized (fixed_result m (s', ok got)).0 (k - length got)
        → read_all sizes (fixed_result m (s', ok got)).0 ≡ ok (take (k - length got) (rest s')))
    → read_rest (ok got) (read_all sizes (fixed_result m (s', ok got)).0)
      ≡ ok (got ++ take (k - length got) (rest s'))
after_read sizes m k s' got p calm some_bytes more = elim (Bool-cases ((k - length got) == 0)) [
  | inl e ↦
      ap (read_rest (ok got))
        (read_all-is_eof sizes (fixed_result m (s', ok got)).0 (rw (p.remaining, e) refl))
      ∙ rest_ok got [] some_bytes
      ∙ ap (λ j. ok (got ++ take j (rest s'))) (sym (zero_left e))
  | inr e ↦
      ap (read_rest (ok got)) (
        more (record {
          size = p.size;
          encoding = p.encoding;
          calm = calm;
          remaining = ap (λ x. x - length got) p.remaining;
          open_ = rw (p.remaining, e) p.open_;
        }))
      ∙ rest_ok got (take (k - length got) (rest s')) some_bytes
]
  where
    zero_left : (((k - length got) == 0) ≡ true) → k - length got ≡ 0
    zero_left e = ground arith

pub length-cases : (got : Bytes) → (length got ≡ 0) ⊎ (1 ≤ length got)
length-cases [] = inl refl
length-cases (c ∷ got) = inr (omega arith)

pub take-empty : (k : ℕ) (t : Bytes) → (0 < k → t ≡ []) → take k t ≡ []
take-empty zero t h = refl
take-empty (suc k) t h = rw (h (omega arith)) refl

-- A body of a fixed size is read up to its size, or up to the end of the stream where that comes
-- first: a body that is cut short is no error.
pub read_all-Sized :
    (sizes : List ℕ) (m : Body) (k : ℕ)
    → AllPositive sizes
    → Sized m k
    → length (take k (rest m.reader)) ≤ length sizes
    → read_all sizes m ≡ ok (take k (rest m.reader))
unfolding read_all
read_all-Sized [] m k pos p l = ap ok (sym (nil_of _ l))
read_all-Sized (n ∷ sizes) m k pos p l =
    let j = min n m.chunk_bytes_remaining in
    let (got, r, h) = read-Reads j m.reader p.calm in
    let s' = (Source.read j m.reader).0 in
    let body = left_over k got m.reader s' h.split (omega (arith, h.bound, p.remaining)) in
    elim (length-cases got) [
      | inl e ↦
          let none_left : take k (rest m.reader) ≡ [] =
            take-empty k (rest m.reader) λ b. h.progress (omega (arith, b, pos.0, p.remaining)) e in
          rw (read-Sized n k m got p r, none_left) (rest_end got (read_all sizes _) e)
      | inr some_bytes ↦
          rw (read-Sized n k m got p r, body)
            (after_read sizes m k s' got p h.calm some_bytes λ p'.
              read_all-Sized sizes (fixed_result m (s', ok got)).0 (k - length got) pos.1 p' (
                fewer got (take (k - length got) (rest s')) (take k (rest m.reader)) some_bytes body
                  l))
    ]
  where
    fewer :
        (got t w : Bytes)
        → 1 ≤ length got
        → w ≡ got ++ t
        → length w ≤ length (n ∷ sizes)
        → length t ≤ length sizes
    fewer got t w h e l = omega (arith, ap length e ∙ length-append got t, l, h)
