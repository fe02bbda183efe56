-- ===== src/Util/Http/Body/Encoding.antt =====
-- The chunked body that `Write for HttpRequest<…Chunked…>` of util/http/mod.rs sends.
use btdt.Prelude.{◌<◌, List, [], ◌∷◌, ◌++◌, Bytes, length, concat, codes}
use btdt.Util.Http.Hex.{format_hex, wrap}
use btdt.Util.Http.Text.{crlf}

-- The pieces that one `write` sends, each by a `write_all`; an empty buffer sends nothing, since an
-- empty chunk would end the body.
abbrev pub chunk_pieces : Bytes → List Bytes
chunk_pieces [] = []
chunk_pieces (c ∷ buf) = format_hex (length (c ∷ buf)) ∷ crlf ∷ (c ∷ buf) ∷ crlf ∷ []

-- The pieces that `response` sends after the last write.
abbrev pub end_pieces : List Bytes
end_pieces = codes "0" ∷ crlf ∷ crlf ∷ []

-- What writes of the buffers and the end send, and what comes after.
abbrev pub encoded : List Bytes → Bytes → Bytes
encoded [] after = concat end_pieces ++ after
encoded (buf ∷ bufs) after = concat (chunk_pieces buf) ++ encoded bufs after

-- Every buffer has a length that fits in a `usize`.
abbrev pub AllFit : List Bytes → Type 0
AllFit [] = Unit
AllFit (buf ∷ bufs) = (length buf < wrap) × AllFit bufs
