-- ===== src/Prelude/Utf8.antt =====
-- What `str` does to UTF-8 bytes: characters, whitespace, trimming and validity.
pub mod Ascii
use btdt.Prelude.{
  ℕ, zero, suc, Bool, true, false, ◌&&◌, ◌||◌, not, Option, none, some, List, [], ◌∷◌, leb, ◌==◌,
  if◌then◌else◌, concat, Bytes,
}

abbrev pub within : ℕ → ℕ → ℕ → Bool
within low high c = leb low c && leb c high

-- A byte that is not the first of its character.
abbrev pub is_continuation : ℕ → Bool
is_continuation b = within 128 191 b

abbrev pub starts_inside : Bytes → Bool
starts_inside [] = false
starts_inside (b ∷ s) = is_continuation b

abbrev pub attach : ℕ → List Bytes → List Bytes
attach b [] = (b ∷ []) ∷ []
attach b (c ∷ cs) = (b ∷ c) ∷ cs

-- `str::chars`, each by its bytes
unfoldable pub chars : Bytes → List Bytes
chars [] = []
chars (b ∷ s) = let rest = chars s in if starts_inside s then attach b rest else (b ∷ []) ∷ rest

-- `char::is_whitespace`
unfoldable pub is_whitespace : Bytes → Bool
is_whitespace (a ∷ []) = within 9 13 a || a == 32
is_whitespace (a ∷ b ∷ []) = a == 194 && (b == 133 || b == 160)
is_whitespace (a ∷ b ∷ c ∷ []) =
    a == 225 && b == 154 && c == 128
    || a == 226 && b == 128 && (within 128 138 c || within 168 169 c || c == 175)
    || a == 226 && b == 129 && c == 159
    || a == 227 && b == 128 && c == 128
is_whitespace _ = false

unfoldable pub skip_spaces : List Bytes → List Bytes
unfolding is_whitespace
skip_spaces [] = []
skip_spaces (c ∷ cs) = let rest = skip_spaces cs in if is_whitespace c then rest else c ∷ cs

abbrev pub is_nil {ℓ} : {A : Type ℓ} → List A → Bool
is_nil [] = true
is_nil (x ∷ xs) = false

unfoldable pub drop_spaces : List Bytes → List Bytes
unfolding is_whitespace
drop_spaces [] = []
drop_spaces (c ∷ cs) =
    let rest = drop_spaces cs in if is_nil rest && is_whitespace c then [] else c ∷ rest

-- `str::trim_end` and `str::trim`
unfoldable pub trim_end : Bytes → Bytes
unfolding chars drop_spaces
trim_end s = concat (drop_spaces (chars s))

unfoldable pub trim : Bytes → Bytes
unfolding chars drop_spaces skip_spaces
trim s = concat (drop_spaces (skip_spaces (chars s)))

-- Whether a `str` can be cut at an index.
unfoldable pub is_char_boundary : ℕ → Bytes → Bool
is_char_boundary zero s = true
is_char_boundary (suc i) [] = false
is_char_boundary (suc i) (b ∷ s) = elim i [
  | zero ↦ not (starts_inside s)
  | suc j ↦ is_char_boundary i s
]

-- The ranges of the bytes that follow a first byte.
abbrev pub continuation : ℕ × ℕ
continuation = (128, 191)

unfoldable pub expected : ℕ → Option (List (ℕ × ℕ))
expected a =
    if leb a 127
    then some []
    else if within 194 223 a
    then some (continuation ∷ [])
    else if a == 224
    then some ((160, 191) ∷ continuation ∷ [])
    else if a == 237
    then some ((128, 159) ∷ continuation ∷ [])
    else if within 225 239 a
    then some (continuation ∷ continuation ∷ [])
    else if a == 240
    then some ((144, 191) ∷ continuation ∷ continuation ∷ [])
    else if within 241 243 a
    then some (continuation ∷ continuation ∷ continuation ∷ [])
    else if a == 244
    then some ((128, 143) ∷ continuation ∷ continuation ∷ [])
    else none

unfoldable pub valid_from : List (ℕ × ℕ) → Bytes → Bool
unfolding expected
valid_from [] [] = true
valid_from (r ∷ rs) [] = false
valid_from [] (b ∷ s) = elim (expected b) [ none ↦ false | some rs ↦ valid_from rs s ]
valid_from ((low, high) ∷ rs) (b ∷ s) = elim (within low high b) [
  | true ↦ valid_from rs s
  | false ↦ false
]

-- `str::from_utf8` accepts the bytes.
unfoldable pub is_utf8 : Bytes → Bool
unfolding valid_from
is_utf8 s = valid_from [] s
