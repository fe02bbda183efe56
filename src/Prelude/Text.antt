-- ===== src/Prelude/Text.antt =====
-- Byte strings, and the text literals as such.
use Prim.Native.Char.{code}
use Prim.Native.Nat.{ℕ}
use Prim.Native.String.{String}
use mathlib.Core.List.{List, [], ◌∷◌}
use mathlib.Core.Bool.{Bool, true, false}
use mathlib.Core.Path.{◌≡◌}
use native.Mathlib.Omega.{arith}
use native.Mathlib.Decide.{ℕ_discrete}

-- `Vec<u8>`, `&[u8]`, and `str` by its UTF-8 bytes.
abbrev pub Bytes : Type 0
Bytes = List ℕ

-- The bytes of a text literal in ASCII.
abbrev pub codes : String → Bytes
codes String.[] = []
codes (String.◌∷◌ c s) = code c ∷ codes s

-- `==` on byte strings.
unfoldable pub bytes_dec : Discrete Bytes
unfolding ℕ_discrete
bytes_dec = hlevel ℕ_discrete

abbrev pub is_yes : {A : Type 0} → Dec A → Bool
is_yes (yes a) = true
is_yes (no n) = false

is_yes_sound : {A : Type 0} (d : Dec A) → is_yes d ≡ true → A
is_yes_sound (yes a) e = a
is_yes_sound (no n) e = absurd (ground (arith, e))

-- The test as a Boolean.
unfoldable pub same : Bytes → Bytes → Bool
unfolding bytes_dec
same s t = is_yes (bytes_dec s t)

pub same_sound : (s t : Bytes) → same s t ≡ true → s ≡ t
unfolding same
same_sound s t e = is_yes_sound (bytes_dec s t) e
