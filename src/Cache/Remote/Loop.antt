-- ===== src/Cache/Remote/Loop.antt =====
-- The loop over the headers in `RemoteCache::get` of cache/remote.rs.
use mathlib.Core.List.{Memᴰ}
use btdt.Prelude.{
  ℕ, zero, suc, ◌<◌, ◌≡◌, ◌≢◌, inl, inr, refl, sym, ap, ◌∙◌, true, Bool-cases, Option, Option-cases,
  some, none, List, [], ◌∷◌, Bytes, codes, length, same, arith, ◌&&◌,
}
use btdt.Io.{ok, ◌>>=◌, Result-cases, err-ok, ok-subst, bind-ok}
use btdt.Util.Http.Error.{HttpResult}
use btdt.Util.Http.Text.{eq_ignore_ascii_case}
use btdt.Util.Http.Source.{rest}
use btdt.Util.Http.Header
use btdt.Util.Http.Header.{Header}
use btdt.Util.Http.Message.{MessageReader, read_response_headers, read_next_header}
use btdt.Util.Http.Message.Progress.{read_next_header-cases}
use btdt.Cache.Remote.{Hints, find_key, note_key, note_size, scan, is_none, found_all}

find_key-Mem : (v k : Bytes) (keys : List Bytes) → find_key v keys ≡ some k → Memᴰ k keys
unfolding find_key
find_key-Mem v k [] h = absurd (cc h)
find_key-Mem v k (k' ∷ keys) h = elim (Bool-cases (same k' v)) [
  | inl e ↦ Memᴰ.head (some-inj k k' (rw e at h))
  | inr e ↦ Memᴰ.tail (find_key-Mem v k keys (rw e at h))
]
  where
    some-inj : (k k' : Bytes) → ◌≡◌ {A = Option Bytes} (some k') (some k) → k ≡ k'
    some-inj k k' h = cc h

-- The key that the headers name is one of those that were asked for.
abbrev pub FromKeys : List Bytes → Hints → Type 0
FromKeys keys hints = (k : Bytes) → hints.hit_key ≡ some k → Memᴰ k keys

abbrev FoundFrom : List Bytes → Option Hints → Type 0
FoundFrom keys none = Unit
FoundFrom keys (some hints) = FromKeys keys hints

note_size-FromKeys :
    (keys : List Bytes) (h : Header) (hints hints' : Hints)
    → FromKeys keys hints
    → note_size h hints ≡ ok hints'
    → FromKeys keys hints'
unfolding note_size
note_size-FromKeys keys h hints hints' f n =
    elim (Bool-cases
      (is_none hints.size_hint && eq_ignore_ascii_case (Header.key h) (codes "content-length"))) [
        | inl e ↦
            let (v, a, b) = bind-ok (Header.value h) _ hints' (rw e at n) in
            ok-subst (λ x. FromKeys keys x) b f
        | inr e ↦ ok-subst (λ x. FromKeys keys x) (rw e at n) f
      ]

note_key-FromKeys :
    (keys : List Bytes) (h : Header) (hints hints' : Hints)
    → FromKeys keys hints
    → note_key keys h hints ≡ ok hints'
    → FromKeys keys hints'
unfolding note_key
note_key-FromKeys keys h hints hints' f n =
    elim (Bool-cases
      (is_none hints.hit_key && eq_ignore_ascii_case (Header.key h) (codes "btdt-cache-key"))) [
        | inl e ↦
            let (v, a, b) = bind-ok (Header.value h) _ hints' (rw e at n) in
            ok-subst (λ x. FromKeys keys x) b λ k p. find_key-Mem v k keys p
        | inr e ↦ ok-subst (λ x. FromKeys keys x) (rw e at n) f
      ]

-- What a header adds to the hints.
abbrev pub note : List Bytes → Header → Hints → HttpResult Hints
note keys h hints = note_size h hints >>= λ hints'. note_key keys h hints'

note-FromKeys :
    (keys : List Bytes) (h : Header) (hints hints' : Hints)
    → FromKeys keys hints
    → note keys h hints ≡ ok hints'
    → FromKeys keys hints'
note-FromKeys keys h hints hints' f n =
    let (hints1, a, b) = bind-ok (note_size h hints) _ hints' n in
    note_key-FromKeys keys h hints1 hints' (note_size-FromKeys keys h hints hints1 f a) b

pub scan-FromKeys :
    (fuel : ℕ) (keys : List Bytes) (hints hints' : Hints) (m : MessageReader read_response_headers)
    → FromKeys keys hints
    → (scan fuel keys hints m).1 ≡ ok (some hints')
    → FromKeys keys hints'
unfolding scan
scan-FromKeys zero keys hints hints' m f h = absurd (cc h)
scan-FromKeys (suc fuel) keys hints hints' m f h = elim (Result-cases (read_next_header m).1) [
  | inr (x, e) ↦ absurd (err-ok x (some hints') (rw (scan, e) at h))
  | inl (o, e) ↦ elim (Option-cases o) [
    | inl z ↦ ok-subst (FoundFrom keys) (rw (scan, e, z) at h) f
    | inr (k, z) ↦ elim (Result-cases (note keys k hints)) [
      | inr (x, e') ↦ absurd (err-ok x (some hints') (rw (scan, e, z, e') at h))
      | inl (hints1, e') ↦ elim (Bool-cases (found_all hints1)) [
        | inl t ↦
            ok-subst (FoundFrom keys) (rw (scan, e, z, e', t) at h)
              (note-FromKeys keys k hints hints1 f e')
        | inr t ↦
            scan-FromKeys fuel keys hints1 hints' (read_next_header m).0
              (note-FromKeys keys k hints hints1 f e') (rw (scan, e, z, e', t) at h)
      ]
    ]
  ]
]

scan-exhausted :
    (fuel : ℕ) (keys : List Bytes) (hints : Hints) (m : MessageReader read_response_headers)
    → m.headers_exhausted ≡ true
    → scan (suc fuel) keys hints m ≡ (m, ok (some hints))
unfolding scan read_next_header
scan-exhausted fuel keys hints m e = rw e refl

-- With two turns more than the stream has bytes the loop ends by itself.
pub scan-ends :
    (f : ℕ) (keys : List Bytes) (hints : Hints) (m : MessageReader read_response_headers)
    → suc (length (rest m.reader)) < f
    → (scan f keys hints m).1 ≢ ok none
unfolding scan
scan-ends zero keys hints m a h = omega arith
scan-ends (suc zero) keys hints m a h = omega arith
scan-ends (suc (suc f)) keys hints m a h = elim (Result-cases (read_next_header m).1) [
  | inr (x, e) ↦ err-ok x none (rw (scan, e) at h)
  | inl (o, e) ↦ elim (Option-cases o) [
    | inl z ↦ some_none hints (rw (scan, e, z) at h)
    | inr (k, z) ↦ elim (Result-cases (note keys k hints)) [
      | inr (x, e') ↦ err-ok x none (rw (scan, e, z, e') at h)
      | inl (hints1, e') ↦ elim (Bool-cases (found_all hints1)) [
        | inl t ↦ some_none hints1 (rw (scan, e, z, e', t) at h)
        | inr t ↦
            let m' = (read_next_header m).0 in
            elim (read_next_header-cases m o e) [
              | inl d ↦ some_none hints1 (
                  ap (λ x. x.1) (sym (scan-exhausted f keys hints1 m' d))
                  ∙ (rw (scan, e, z, e', t) at h))
              | inr d ↦
                  scan-ends (suc f) keys hints1 m' (omega (arith, d, a))
                    (rw (scan, e, z, e', t) at h)
            ]
      ]
    ]
  ]
]
  where
    some_none :
        (hints : Hints) → ◌≡◌ {A = HttpResult (Option Hints)} (ok (some hints)) (ok none) → ⊥
    some_none hints h = cc h
