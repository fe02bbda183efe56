-- ===== src/Prelude/Utf8/Ascii.antt =====
-- ASCII texts: every byte is a character.
use btdt.Prelude.{◌<◌, ◌≡◌, refl, ap, true, List, [], ◌∷◌, ◌++◌, Bytes, concat, arith}
use btdt.Prelude.Utf8.{chars, valid_from, is_utf8, expected}

abbrev pub AllAscii : Bytes → Type 0
AllAscii [] = Unit
AllAscii (c ∷ s) = (c < 128) × AllAscii s

pub AllAscii-append : (s t : Bytes) → AllAscii s → AllAscii t → AllAscii (s ++ t)
AllAscii-append [] t h k = k
AllAscii-append (c ∷ s) t h k = (h.0, AllAscii-append s t h.1 k)

abbrev pub singles : Bytes → List Bytes
singles [] = []
singles (c ∷ s) = (c ∷ []) ∷ singles s

pub concat-singles : (s : Bytes) → concat (singles s) ≡ s
concat-singles [] = refl
concat-singles (c ∷ s) = ap (λ t. c ∷ t) (concat-singles s)

pub singles-append : (s t : Bytes) → singles (s ++ t) ≡ singles s ++ singles t
singles-append [] t = refl
singles-append (c ∷ s) t = ap (λ r. (c ∷ []) ∷ r) (singles-append s t)

pub chars-AllAscii : (s : Bytes) → AllAscii s → chars s ≡ singles s
unfolding chars
chars-AllAscii [] h = refl
chars-AllAscii (c ∷ []) h = refl
chars-AllAscii (c ∷ d ∷ s) h = ground (arith, chars-AllAscii (d ∷ s) h.1, h)

pub is_utf8-AllAscii : (s : Bytes) → AllAscii s → is_utf8 s ≡ true
unfolding is_utf8
is_utf8-AllAscii [] h = unfold valid_from in refl
is_utf8-AllAscii (c ∷ s) h = unfold valid_from expected in ground (arith, is_utf8-AllAscii s h.1, h)
