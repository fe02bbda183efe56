-- ===== src/Util/Http/Body/SizeLine.antt =====
-- The line of a chunk's size in util/http/mod.rs: a hexadecimal number and the end of the line.
use btdt.Prelude.{ℕ, ◌≤◌, ◌≡◌, refl, [], ◌∷◌, ◌++◌, Bytes, length, arith}
use btdt.Prelude.Utf8.{trim, skip_spaces, drop_spaces, is_whitespace}
use btdt.Prelude.Utf8.Ascii.{AllAscii, AllAscii-append, singles, concat-singles, chars-AllAscii}
use btdt.Util.Http.Hex.{AllHex}
use btdt.Util.Http.Text.{crlf}
use btdt.Util.Http.Source.Reading.{NoLf}

pub AllHex-AllAscii : (h : Bytes) → AllHex h → AllAscii h
AllHex-AllAscii [] a = tt
AllHex-AllAscii (c ∷ h) a = (ground (arith, a.0), AllHex-AllAscii h a.1)

pub AllHex-NoLf : (h : Bytes) → AllHex h → NoLf (h ++ (b'\r' ∷ []))
AllHex-NoLf [] a = (omega arith, tt)
AllHex-NoLf (c ∷ h) a = (ground (arith, a.0), AllHex-NoLf h a.1)

drop_spaces-AllHex : (h : Bytes) → AllHex h → drop_spaces (singles (h ++ crlf)) ≡ singles h
unfolding drop_spaces is_whitespace
drop_spaces-AllHex [] a = refl
drop_spaces-AllHex (c ∷ h) a = ground (arith, drop_spaces-AllHex h a.1, a.0)

skip_spaces-AllHex :
    (c : ℕ) (h : Bytes)
    → AllHex (c ∷ h)
    → skip_spaces (singles ((c ∷ h) ++ crlf)) ≡ singles ((c ∷ h) ++ crlf)
unfolding skip_spaces is_whitespace
skip_spaces-AllHex c h a = ground (arith, a.0)

-- The line of a size without its end.
pub trim-AllHex : (h : Bytes) → AllHex h → 1 ≤ length h → trim (h ++ crlf) ≡ h
unfolding trim
trim-AllHex [] a l = absurd (omega arith)
trim-AllHex (c ∷ h) a l =
    rw
      (
        chars-AllAscii ((c ∷ h) ++ crlf)
            (AllAscii-append (c ∷ h) crlf (AllHex-AllAscii (c ∷ h) a) (omega arith)),
        skip_spaces-AllHex c h a,
        drop_spaces-AllHex (c ∷ h) a,
      )
      (concat-singles (c ∷ h))
