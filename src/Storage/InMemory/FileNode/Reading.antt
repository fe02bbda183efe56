-- ===== src/Storage/InMemory/FileNode/Reading.antt =====
-- What the readers of file_node.rs read.
use native.Mathlib.Nat.{zero-add, suc-add}
use btdt.Prelude.{
  sum, AllPositive, take-length, get_or-set_self, length-append, ℕ, zero, suc, ◌+◌, ◌-◌, ◌≤◌, ◌<◌,
  ◌≡◌, refl, sym, min, ◌∙◌, ap, List, [], ◌∷◌, ◌++◌, arith, Bytes, length, take, drop, set, leb,
  Bool-cases, drop-drop, length-take, length-drop, drop-eq-nil, inl, ◌⊎◌, inr,
}
use mathlib.Core.List.{append-nil}
use btdt.Io.{ok}
use btdt.Storage.InMemory.FileNode.{
  reader, read_exact, exactly, Contents, content, FileReader, read, read_all, write,
}

take-append-rest {ℓ} :
    {A : Type ℓ} (n : ℕ) (xs : List A) → take n xs ++ drop (length (take n xs)) xs ≡ xs
take-append-rest zero xs = refl
take-append-rest (suc n) [] = refl
take-append-rest (suc n) (x ∷ xs) = ap (λ r. x ∷ r) (take-append-rest n xs)

-- What one call returns, with what then follows the offset.
chunk-append :
    (n off : ℕ) (c : Bytes)
    → let chunk = take n (drop off c) in
      take (length chunk) chunk ++ drop (off + length chunk) c ≡ drop off c
chunk-append n off c =
    rw (take-length, ← drop-drop (length (take n (drop off c))) off c)
      (take-append-rest n (drop off c))

chunk_length :
    (n off : ℕ) (c : Bytes)
    → (length (take n (drop off c)) ≤ n)
      × ((length c ≤ off) ⊎ (0 < n → 0 < length (take n (drop off c))))
      × (length (take n (drop off c)) ≡ min n (length c - off))
chunk_length n off c = rw (length-take, length-drop) (omega arith, ground arith, omega arith)

-- With buffers that are not empty, and together as long as what is left of the file, the reads
-- return what follows the reader's offset, however the buffers cut it.
pub read_all-eq-drop :
    (sizes : List ℕ) (r : FileReader) (fs : Contents)
    → AllPositive sizes
    → length (content fs r.file_node) ≤ r.offset + sum sizes
    → read_all r sizes fs ≡ drop r.offset (content fs r.file_node)
unfolding read_all
read_all-eq-drop [] r fs h l = sym (drop-eq-nil r.offset (content fs r.file_node) (omega arith))
read_all-eq-drop (n ∷ sizes) r fs h l =
    elim (Bool-cases (leb (length (content fs r.file_node)) r.offset)) [
      | inl e ↦ ground (arith, drop-eq-nil r.offset (content fs r.file_node))
      | inr e ↦ ground (
        arith,
        chunk_length n r.offset (content fs r.file_node),
        chunk-append n r.offset (content fs r.file_node),
        read_all-eq-drop sizes
            (record r {
              offset = r.offset + length (take n (drop r.offset (content fs r.file_node)));
            })
            fs h.1,
      )
    ]

read-eof :
    (r : FileReader) (n : ℕ) (fs : Contents)
    → 0 < n
    → length (content fs r.file_node) ≤ r.offset
    → (read r n fs).reader ≡ record r { offset = r.offset + 1 }
unfolding read
read-eof r n fs pos e = ground arith

drop-append {ℓ} :
    {A : Type ℓ} (n : ℕ) (xs ys : List A) → drop (length xs + n) (xs ++ ys) ≡ drop n ys
drop-append n [] ys = rw zero-add
drop-append n (x ∷ xs) ys = rw suc-add (drop-append n xs ys)

-- A reader that has met the end of its file skips the first byte of what is appended afterwards: a
-- read at the end, with a buffer that is not empty, moves the offset past it.
pub read_all-after_eof :
    (r : FileReader) (n : ℕ) (buf : Bytes) (sizes : List ℕ) (fs : Contents)
    → r.file_node < length fs
    → r.offset ≡ length (content fs r.file_node)
    → 0 < n
    → AllPositive sizes
    → length buf ≤ 1 + sum sizes
    → read_all (read r n fs).reader sizes (write (record { file_node = r.file_node }) buf fs).0
      ≡ drop 1 buf
unfolding write
read_all-after_eof r n buf sizes fs there at_end pos h long =
    let c = content fs r.file_node in
    let same = get_or-set_self fs r.file_node (c ++ buf) [] there in
    rw (read-eof r n fs pos (omega arith)) (
      read_all-eq-drop sizes _ (set fs r.file_node (c ++ buf)) h
        (rw same (omega (arith, length-append {0} c buf)))
      ∙ rw (same, at_end) (drop-append 1 c buf))

exactly-zero : (fuel : ℕ) (r : FileReader) (fs : Contents) → exactly fuel r 0 fs ≡ ok []
unfolding exactly
exactly-zero zero r fs = refl
exactly-zero (suc fuel) r fs = refl

read_full :
    (r n : ℕ) (fs : Contents)
    → suc n ≤ length (content fs r)
    → let bytes = take (suc n) (content fs r) in
      read (record { file_node = r; offset = 0 }) (suc n) fs ≡ record {
        written = bytes;
        count = suc n;
        reader = record { file_node = r; offset = 0 + suc n };
      }
unfolding read
read_full r n fs h =
    let e : length (take (suc n) (content fs r)) ≡ suc n =
      omega (arith, length-take (suc n) (content fs r)) in
    ground (arith, e)

take-take {ℓ} : {A : Type ℓ} (n : ℕ) (xs : List A) → take n (take n xs) ≡ take n xs
take-take zero xs = refl
take-take (suc n) [] = refl
take-take (suc n) (x ∷ xs) = ap (λ r. x ∷ r) (take-take n xs)

-- `read_exact` with a fresh reader reads exactly as many bytes as it is asked for, if the file has them.
pub read_exact-eq-take :
    (r n : ℕ) (fs : Contents)
    → n ≤ length (content fs r)
    → read_exact (reader r) n fs ≡ ok (take n (content fs r))
unfolding read_exact exactly reader
read_exact-eq-take r zero fs h = refl
read_exact-eq-take r (suc n) fs h =
    let e : suc n - suc n ≡ 0 = omega arith in
    rw (read_full r n fs h) (
      rw e (
        rw exactly-zero (
          ground (
            arith,
            take-take (suc n) (content fs r),
            append-nil (take (suc n) (take (suc n) (content fs r))),
          ))))
