-- ===== src/Util/Http/Message/Progress.antt =====
-- How far the calls of `HttpMessageReader` in util/http/mod.rs take the stream: the loops over the
-- headers come to an end.
use mathlib.Core.List.{append_assoc, append-nil}
use btdt.Prelude.{
  ◌⊎◌, ℕ, zero, suc, ◌≤◌, ◌<◌, ◌≡◌, refl, sym, ap, ◌∙◌, Bool, true, false, Bool-cases, inl, inr,
  Option-cases, ◌==◌, Option, none, some, List, [], ◌∷◌, ◌++◌, Bytes, length, length-append, concat,
  arith, codes,
}
use btdt.Prelude.Utf8.{trim, is_nil, is_utf8}
use btdt.Io.{ok, err, Result-cases, err-ok, IoError, ok-subst}
use btdt.Util.Http.Text.{eq_ignore_ascii_case}
use btdt.Util.Http.Source.{Source, rest, read_line, take_line, cut_line, line_result, checked}
use btdt.Util.Http.Header
use btdt.Util.Http.Header.{Header}
use btdt.Util.Http.Hex.{wrap}
use btdt.Util.Http.Decimal.{parse_decimal}
use btdt.Util.Http.Message.{
  Reading, MessageReader, read_response_headers, read_next_header, header_of, interpret,
  encoding_of, length_of, skip_headers,
}

after_cut : Option Bytes → Bytes
after_cut none = []
after_cut (some w) = w

cut_line-split : (w : Bytes) → (cut_line w).0 ++ after_cut (cut_line w).1 ≡ w
unfolding cut_line after_cut
cut_line-split [] = refl
cut_line-split (c ∷ w) = elim (Bool-cases (c == b'\n')) [
  | inl e ↦ rw e refl
  | inr e ↦ rw e (ap (λ t. c ∷ t) (cut_line-split w))
]

take_line-split : (ws : List Bytes) → (take_line ws).0 ++ concat (take_line ws).1 ≡ concat ws
unfolding take_line after_cut
take_line-split [] = refl
take_line-split (w ∷ ws) = elim (Option-cases (cut_line w).1) [
  | inl e ↦
      rw (take_line, e)
        (append_assoc (cut_line w).0 (take_line ws).0 (concat (take_line ws).1)
          ∙ ap (λ t. (cut_line w).0 ++ t) (take_line-split ws)
          ∙ ap (λ t. t ++ concat ws)
              (sym (append-nil (cut_line w).0) ∙ (rw e at (cut_line-split w))))
  | inr (w', e) ↦
      rw (take_line, e)
        (sym (append_assoc (cut_line w).0 w' (concat ws))
          ∙ ap (λ t. t ++ concat ws) (rw e at (cut_line-split w)))
]

-- A line that was read and what is left are what was there.
read_line-split :
    (s : Source) (line : Bytes) → (read_line s).1 ≡ ok line → line ++ rest (read_line s).0 ≡ rest s
unfolding read_line
read_line-split s line h =
    ap (λ l. l ++ concat (take_line s.segments).1) (sym (kept _ _ _ h)) ∙ take_line-split s.segments
  where
    whole : (l : Bytes) → checked l ≡ ok line → l ≡ line
    whole l h = elim (Bool-cases (is_utf8 l)) [
      | inl e ↦ ok-subst (λ x. l ≡ x) (rw e at h) refl
      | inr e ↦ absurd (err-ok _ line (rw e at h))
    ]

    kept :
        (l : Bytes) (found : Bool) (f : Option IoError) → line_result l found f ≡ ok line → l ≡ line
    kept l false (some e) h = absurd (err-ok e line h)
    kept l false none h = whole l h
    kept l true f h = whole l h

-- A call leaves the stream, and says that there is no header only where the headers are exhausted.
abbrev Turn : MessageReader read_response_headers → Reading (Option Header) → Type 0
Turn m (m', err e) = m'.reader ≡ m.reader
Turn m (m', ok none) = (m'.reader ≡ m.reader) × (m'.headers_exhausted ≡ true)
Turn m (m', ok (some h)) = m'.reader ≡ m.reader

encoding_of-Turn :
    (m : MessageReader read_response_headers) (h : Header) (v : Bytes) → Turn m (encoding_of m h v)
unfolding encoding_of
encoding_of-Turn m h v = elim (Bool-cases (eq_ignore_ascii_case v (codes "chunked"))) [
  | inl e ↦ rw e refl
  | inr e ↦ rw e refl
]

length_of-Turn :
    (m : MessageReader read_response_headers) (h : Header) (v : Bytes) → Turn m (length_of m h v)
unfolding length_of
length_of-Turn m h v = elim (Option-cases (parse_decimal wrap v)) [
  | inl e ↦ rw (length_of, e) refl
  | inr (n, e) ↦ rw (length_of, e) refl
]

interpret-Turn : (m : MessageReader read_response_headers) (h : Header) → Turn m (interpret m h)
unfolding interpret
interpret-Turn m h =
    elim (Bool-cases (eq_ignore_ascii_case (Header.key h) (codes "Transfer-Encoding"))) [
      | inl e ↦ elim (Result-cases (Header.value h)) [
        | inl (v, e') ↦ rw (e, e') (encoding_of-Turn m h v)
        | inr (x, e') ↦ rw (e, e') refl
      ]
      | inr e ↦ elim (Bool-cases (eq_ignore_ascii_case (Header.key h) (codes "Content-Length"))) [
        | inl e2 ↦ elim (Result-cases (Header.value h)) [
          | inl (v, e') ↦ rw (e, e2, e') (length_of-Turn m h v)
          | inr (x, e') ↦ rw (e, e2, e') refl
        ]
        | inr e2 ↦ rw (e, e2) refl
      ]
    ]

header_of-Turn :
    (m : MessageReader read_response_headers) (line : Bytes) → Turn m (header_of m line)
unfolding header_of
header_of-Turn m line = elim (Bool-cases (is_nil (trim line))) [
  | inl e ↦ rw e (refl, refl)
  | inr e ↦ elim (Result-cases (Header.new line)) [
    | inl (h, e') ↦ rw (e, e') (interpret-Turn m h)
    | inr (x, e') ↦ rw (e, e') refl
  ]
]

some_line :
    (m : MessageReader read_response_headers) (line : Bytes) (h : Header)
    → (header_of m line).1 ≡ ok (some h)
    → 1 ≤ length line
unfolding header_of trim
some_line m [] h e = cc e
some_line m (c ∷ line) h e = omega arith

-- What a call leaves: a header takes at least a byte.
abbrev Left : MessageReader read_response_headers → Reading (Option Header) → Type 0
Left m (m', err e) = Unit
Left m (m', ok none) = m'.headers_exhausted ≡ true
Left m (m', ok (some h)) = length (rest m'.reader) < length (rest m.reader)

read_next_header-Left : (m : MessageReader read_response_headers) → Left m (read_next_header m)
unfolding read_next_header
read_next_header-Left m = elim (Bool-cases m.headers_exhausted) [
  | inl e ↦ rw e refl
  | inr e ↦ elim (Result-cases (read_line m.reader).1) [
    | inr (x, e') ↦ rw (e, e') tt
    | inl (line, e') ↦
        let m1 : MessageReader read_response_headers = record m {
          reader = (read_line m.reader).0;
        } in
        rw (e, e')
          (shorter m1 line (header_of m1 line) (header_of-Turn m1 line)
            (read_line-split m.reader line e') (some_line m1 line))
  ]
]
  where
    shorter :
        (m1 : MessageReader read_response_headers) (line : Bytes) (r : Reading (Option Header))
        → Turn m1 r
        → line ++ rest m1.reader ≡ rest m.reader
        → ((h : Header) → r.1 ≡ ok (some h) → 1 ≤ length line)
        → Left m r
    shorter m1 line (m', err e) t s n = tt
    shorter m1 line (m', ok none) t s n = t.1
    shorter m1 line (m', ok (some h)) t s n =
        rw t (omega (arith, n h refl, sym (length-append line (rest m1.reader)) ∙ ap length s))

-- Whether the loop has come to its end: it has failed, or the headers are exhausted.
abbrev pub Ended : Reading (Unit {0}) → Type 0
Ended (m, err e) = Unit
Ended (m, ok u) = m.headers_exhausted ≡ true

-- The call that goes on has ended the headers, or has taken a byte.
pub read_next_header-cases :
    (m : MessageReader read_response_headers) (o : Option Header)
    → (read_next_header m).1 ≡ ok o
    → ((read_next_header m).0.headers_exhausted ≡ true)
      ⊎ (length (rest (read_next_header m).0.reader) < length (rest m.reader))
read_next_header-cases m o h = cases (read_next_header m) h (read_next_header-Left m)
  where
    cases :
        (r : Reading (Option Header))
        → r.1 ≡ ok o
        → Left m r
        → (r.0.headers_exhausted ≡ true) ⊎ (length (rest r.0.reader) < length (rest m.reader))
    cases (m', err e) h l = absurd (err-ok e o h)
    cases (m', ok none) h l = inl l
    cases (m', ok (some x)) h l = inr l

exhausted-Ended :
    (fuel : ℕ) (m : MessageReader read_response_headers)
    → m.headers_exhausted ≡ true
    → Ended (skip_headers fuel m)
unfolding skip_headers
exhausted-Ended zero m e = e
exhausted-Ended (suc fuel) m e = rw e refl

-- A loop with more turns than the stream has bytes ends: it fails, or exhausts the headers. It does not
-- stop for want of turns.
pub skip_headers-Ended :
    (fuel : ℕ) (m : MessageReader read_response_headers)
    → length (rest m.reader) < fuel
    → Ended (skip_headers fuel m)
unfolding skip_headers
skip_headers-Ended zero m l = absurd (omega arith)
skip_headers-Ended (suc fuel) m l = elim (Bool-cases m.headers_exhausted) [
  | inl e ↦ rw e refl
  | inr e ↦ elim (Result-cases (read_next_header m).1) [
    | inr (x, e') ↦ rw (skip_headers, e, e') tt
    | inl (o, e') ↦ elim (read_next_header-cases m o e') [
      | inl d ↦ rw (skip_headers, e, e') (exhausted-Ended fuel (read_next_header m).0 d)
      | inr d ↦
          rw (skip_headers, e, e')
            (skip_headers-Ended fuel (read_next_header m).0 (omega (arith, d, l)))
    ]
  ]
]
