-- ===== src/Util/Http/Source/Reading.antt =====
-- What reads from a source of util/http/mod.rs return, however its bytes are cut into segments.
use mathlib.Core.List.{append_assoc}
use btdt.Prelude.{
  ℕ, zero, suc, ◌+◌, ◌-◌, ◌≤◌, ◌<◌, ◌≡◌, ◌≢◌, refl, sym, ap, ◌∙◌, Bool, true, false, inl, inr,
  Option, Option-cases, none, some, List, [], ◌∷◌, ◌++◌, Bytes, length, take, drop, concat,
  if◌then◌else◌, take-append-drop, length-take, length-append, arith,
}
use btdt.Prelude.Utf8.{is_utf8, is_nil}
use btdt.Io.{IoError, IoResult, ok}
use btdt.Util.Http.Source.{
  Source, rest, exact_step, at_end, take_from, read, read_exact, read_exactly, cut_line, take_line,
  read_line,
}

take_from-append :
    (n : ℕ) (ws : List Bytes) → (take_from n ws).0 ++ concat (take_from n ws).1 ≡ concat ws
unfolding take_from
take_from-append n [] = refl
take_from-append n ([] ∷ ws) = take_from-append n ws
take_from-append n ((c ∷ w) ∷ ws) =
    sym (append_assoc (take n (c ∷ w)) (drop n (c ∷ w)) (concat ws))
    ∙ ap (λ x. x ++ concat ws) (take-append-drop n (c ∷ w))

length-take_from : (n : ℕ) (ws : List Bytes) → length (take_from n ws).0 ≤ n
unfolding take_from
length-take_from n [] = omega arith
length-take_from n ([] ∷ ws) = length-take_from n ws
length-take_from n ((c ∷ w) ∷ ws) = omega (arith, length-take n (c ∷ w))

take_from-progress :
    (n : ℕ) (ws : List Bytes) → 0 < n → (length (take_from n ws).0 ≡ 0) → concat ws ≡ []
unfolding take_from
take_from-progress n [] h e = refl
take_from-progress n ([] ∷ ws) h e = take_from-progress n ws h e
take_from-progress n ((c ∷ w) ∷ ws) h e = absurd (omega (arith, h, e, length-take n (c ∷ w)))

-- A read that has not failed: the bytes are the next ones, and there are some unless the end is
-- reached.
pub record Reads (n : ℕ) (s s' : Source) (got : Bytes) : Type 0 where
  pub split : got ++ rest s' ≡ rest s
  pub bound : length got ≤ n
  pub progress : 0 < n → length got ≡ 0 → rest s ≡ []
  pub calm : s'.failure ≡ none

end_or_got :
    (got : Bytes) (f : Option IoError)
    → f ≡ none
    → (if is_nil got then at_end [] f else ok got) ≡ ok got
end_or_got [] f h = rw h
end_or_got (c ∷ got) f h = refl

read-pos :
    (n : ℕ) (s : Source)
    → s.failure ≡ none
    → 0 < n
    → read n s ≡ (record s { segments = (take_from n s.segments).1 }, ok (take_from n s.segments).0)
unfolding read
read-pos n s calm h = ground (arith, end_or_got (take_from n s.segments).0 s.failure calm)

pub read-Reads :
    (n : ℕ) (s : Source)
    → s.failure ≡ none
    → (got : Bytes) × ((read n s).1 ≡ ok got) × Reads n s (read n s).0 got
read-Reads zero s calm =
    unfold read in
    (
      [],
      refl,
      record {
        split = refl;
        bound = omega arith;
        progress = λ h. absurd (omega arith);
        calm = calm;
      },
    )
read-Reads (suc n) s calm =
    let t = take_from (suc n) s.segments in
    rw (read-pos (suc n) s calm (omega arith)) (
      t.0,
      refl,
      record {
        split = take_from-append (suc n) s.segments;
        bound = length-take_from (suc n) s.segments;
        progress = take_from-progress (suc n) s.segments;
        calm = calm;
      },
    )

pub split_prefix :
    (g r w t : Bytes)
    → g ++ r ≡ w ++ t
    → length g ≤ length w
    → (w' : Bytes) × (w ≡ g ++ w') × (r ≡ w' ++ t)
split_prefix [] r w t e l = (w, refl, e)
split_prefix (c ∷ g) r [] t e l = absurd (omega arith)
split_prefix (c ∷ g) r (d ∷ w) t e l =
    let (w', a, b) = split_prefix g r w t (ground (arith, e)) (omega arith) in
    (w', ground (arith, e, a), b)

exact_ok :
    (got w' : Bytes) (r : IoResult Bytes) (s' s'' : Source) (k : Bytes → Source × IoResult Bytes)
    → r ≡ ok got
    → 1 ≤ length got
    → k got ≡ (s'', ok w')
    → exact_step r s' k ≡ (s'', ok (got ++ w'))
exact_ok [] w' r s' s'' k e l h = absurd (omega arith)
exact_ok (c ∷ got) w' r s' s'' k e l h = rw (e, h)

-- What is next is read in full, whatever the reads return on the way.
pub read_exactly-append :
    (fuel : ℕ) (w t : Bytes) (s : Source)
    → s.failure ≡ none
    → rest s ≡ w ++ t
    → length w ≤ fuel
    → (s' : Source) × (read_exactly fuel (length w) s ≡ (s', ok w))
      × (rest s' ≡ t)
      × (s'.failure ≡ none)
unfolding read_exactly
read_exactly-append fuel [] t s calm e l = (s, refl, e, calm)
read_exactly-append zero (c ∷ w) t s calm e l = absurd (omega arith)
read_exactly-append (suc fuel) (c ∷ w) t s calm e l =
    let (got, r, h) = read-Reads (suc (length w)) s calm in
    let s' = (read (suc (length w)) s).0 in
    let (w', a, b) = split_prefix got (rest s') (c ∷ w) t (h.split ∙ e) h.bound in
    let m : length got + length w' ≡ suc (length w) =
      sym (length-append got w') ∙ ap length (sym a) in
    let n : suc (length w) - length got ≡ length w' = omega (arith, m) in
    let (s'', x, y, z) =
      read_exactly-append fuel w' t s' h.calm b (some_read got w' m (nonempty got h.progress)) in
    (s'', exact_ok got w' _ s' s'' _ r (nonempty got h.progress) (rw n x) ∙ rw (← a), y, z)
  where
    nonempty : (got : Bytes) → (0 < suc (length w) → length got ≡ 0 → rest s ≡ []) → 1 ≤ length got
    nonempty [] p = cc (p (omega arith) refl, e)
    nonempty (d ∷ g) p = omega arith

    some_read :
        (got w' : Bytes)
        → length got + length w' ≡ suc (length w)
        → 1 ≤ length got
        → length w' ≤ fuel
    some_read got w' m k = omega (arith, l)

pub read_exact-append :
    (w t : Bytes) (s : Source)
    → s.failure ≡ none
    → rest s ≡ w ++ t
    → (s' : Source) × (read_exact (length w) s ≡ (s', ok w)) × (rest s' ≡ t) × (s'.failure ≡ none)
unfolding read_exact
read_exact-append w t s calm e = read_exactly-append (length w) w t s calm e (omega arith)

pub positive : (x : ℕ) → (x ≡ 0 → ⊥) → 1 ≤ x
positive zero h = absurd (h refl)
positive (suc x) h = omega arith

-- The line of a text does not depend on how it is cut.
cut_line-append :
    (w x : Bytes)
    → cut_line (w ++ x) ≡ (elim (cut_line w).1 [
      | some r ↦ ((cut_line w).0, some (r ++ x))
      | none ↦ ((cut_line w).0 ++ (cut_line x).0, (cut_line x).1)
    ])
unfolding cut_line
cut_line-append [] x = refl
cut_line-append (c ∷ w) x = elim (Option-cases (cut_line w).1) [
  | inl a ↦ ground (arith, a, cut_line-append w x)
  | inr (r, a) ↦ ground (arith, a, cut_line-append w x)
]

abbrev found_rest : Bool → List Bytes → Option Bytes
found_rest true ws = some (concat ws)
found_rest false ws = none

take_line-cut_line :
    (ws : List Bytes)
    → cut_line (concat ws) ≡ ((take_line ws).0, found_rest (take_line ws).2 (take_line ws).1)
unfolding take_line cut_line
take_line-cut_line [] = refl
take_line-cut_line (w ∷ ws) =
    rw (cut_line-append w (concat ws)) (elim (Option-cases (cut_line w).1) [
      | inl a ↦ ground (arith, a, take_line-cut_line ws)
      | inr (r, a) ↦ ground (arith, a)
    ])

-- No line feed before the last byte.
abbrev pub NoLf : Bytes → Type 0
NoLf [] = Unit
NoLf (c ∷ s) = (c ≢ b'\n') × NoLf s

cut_line-NoLf : (l t : Bytes) → NoLf l → cut_line (l ++ (b'\n' ∷ t)) ≡ (l ++ (b'\n' ∷ []), some t)
unfolding cut_line
cut_line-NoLf [] t h = refl
cut_line-NoLf (c ∷ l) t h = ground (arith, cut_line-NoLf l t h.1, h.0)

line_parts :
    (found : Bool) (ws : List Bytes) (l t line : Bytes)
    → ◌≡◌ {A = Bytes × Option Bytes} (line, found_rest found ws) (l, some t)
    → (line ≡ l) × (found ≡ true) × (concat ws ≡ t)
line_parts found ws l t line e = ground arith

-- A line that is valid UTF-8 is read with its line feed.
pub read_line-append :
    (l t : Bytes) (s : Source)
    → s.failure ≡ none
    → rest s ≡ l ++ (b'\n' ∷ t)
    → NoLf l
    → is_utf8 (l ++ (b'\n' ∷ [])) ≡ true
    → (s' : Source) × (read_line s ≡ (s', ok (l ++ (b'\n' ∷ []))))
      × (rest s' ≡ t)
      × (s'.failure ≡ none)
unfolding read_line
read_line-append l t s calm e n u =
    let c = cut_line-NoLf l t n in
    let q = take_line-cut_line s.segments in
    let (a, b, d) =
      line_parts (take_line s.segments).2 (take_line s.segments).1 (l ++ (b'\n' ∷ [])) t
        (take_line s.segments).0 (sym q ∙ ap cut_line e ∙ c) in
    (record s { segments = (take_line s.segments).1 }, rw (a, b, u), d, calm)
