-- ===== src/Storage/InMemory/FileNode.antt =====
-- storage/in_memory/file_node.rs: the contents of the file nodes, with their readers and writers.
-- A file node lives as long as somebody holds its `Arc`, so a content is never taken off the list,
-- and a node is named by its place in it.
pub mod Reading
use btdt.Io.{IoResult, ok, err, ◌>>=◌, unexpected_eof}
use btdt.Prelude.{
  zero, suc, ◌-◌, ℕ, ◌+◌, if◌then◌else◌, leb, ◌==◌, List, [], ◌∷◌, ◌++◌, Bytes, length, get_or, set,
  take, drop, min,
}

abbrev pub Contents : Type 0
Contents = List Bytes

-- `FileNode::new`: the contents with the new one, and its place
unfoldable pub new_file : Contents → Contents × ℕ
new_file fs = (fs ++ ([] ∷ []), length fs)

abbrev pub content : Contents → ℕ → Bytes
content fs r = get_or fs r []

unfoldable pub size : Contents → ℕ → ℕ
size fs r = length (content fs r)

pub record FileWriter : Type 0 where
  pub file_node : ℕ

pub record FileReader : Type 0 where
  pub file_node : ℕ
  pub offset : ℕ

unfoldable pub reader : ℕ → FileReader
reader r = record { file_node = r; offset = 0 }

unfoldable pub writer : ℕ → FileWriter
writer r = record { file_node = r }

-- `Vec<u8>::write` appends, and takes the whole buffer.
unfoldable pub write : FileWriter → Bytes → Contents → Contents × ℕ
write w buf fs = (set fs w.file_node (content fs w.file_node ++ buf), length buf)

-- `FileWriter::flush`
unfoldable pub flush : FileWriter → Contents → Contents
flush w fs = fs

-- What a call of `read` with a buffer of `n` bytes leaves: the buffer's first bytes that it has
-- written, the number that it returns, and the reader.
pub record ReadResult : Type 0 where
  pub written : Bytes
  pub count : ℕ
  pub reader : FileReader

unfoldable pub read : FileReader → ℕ → Contents → ReadResult
read r n fs =
    let data_of = content fs r.file_node in
    if n == 0
    then record { written = []; count = 0; reader = r }
    else if leb (length data_of) r.offset
    then record { written = 0 ∷ []; count = 0; reader = record r { offset = r.offset + 1 } }
    else (let bytes = take n (drop r.offset data_of) in
        record {
          written = bytes;
          count = length bytes;
          reader = record r { offset = r.offset + length bytes };
        })

-- `Read::read_to_end` and the like: reads with buffers of the given sizes until one returns 0. The
-- bytes that count are the first `count` of the buffer.
unfoldable pub read_all : FileReader → List ℕ → Contents → Bytes
unfolding read
read_all r [] fs = []
read_all r (n ∷ sizes) fs =
    let result = read r n fs in
    let rest = read_all result.reader sizes fs in
    if result.count == 0 then [] else take result.count result.written ++ rest

-- `Read::read_exact`: reads until `n` bytes are there, and an error if the file ends before. Every
-- read but the last advances, so `n` is fuel enough.
unfoldable pub exactly : ℕ → FileReader → ℕ → Contents → IoResult Bytes
exactly zero r n fs =
    if n == 0
    then ok []
    else err (record { kind = unexpected_eof; message = "failed to fill whole buffer" })
exactly (suc fuel) r n fs =
    let result = read r n fs in
    let rest = exactly fuel result.reader (n - result.count) fs in
    if n == 0
    then ok []
    else if result.count == 0
    then err (record { kind = unexpected_eof; message = "failed to fill whole buffer" })
    else (do more ← rest; ok (take result.count result.written ++ more))

unfoldable pub read_exact : FileReader → ℕ → Contents → IoResult Bytes
unfolding exactly
read_exact r n fs = exactly n r n fs
