-- ===== src/Lib.antt =====
-- A model of btdt, a cache for files between runs of CI pipelines, with its correctness theorems.
--
-- The program stores blobs under one or more keys in a storage. Its parts here, and the files that
-- model them:
--
-- btdt/src/error.rs: Io. `io::Error` is its kind and message; `Result` is a type of the model.
-- btdt/src/util/close.rs: Util/Close.
-- btdt/src/util/humanbytes.rs: Util/HumanBytes, with Util/HumanBytes/Scanning for the proofs. The
--   `while` loop is `scan`, and one turn of it, from the value on, is `next_amount`.
-- btdt/src/storage/mod.rs: Storage has the types, Storage/Interface the trait. The trait is a
--   record of operations on an unknown state; `View` is what a client sees of the state, and
--   `IsLawful` is what a storage promises. The cache takes both as parameters, and
--   Storage/InMemory/Implements fills them. `IsReliable`, which Storage/InMemory/Reliable fills, is
--   for the theorems that say that an operation of the cache succeeds.
-- btdt/src/storage/in_memory/path_iter.rs: Storage/InMemory/PathIter. `PathIterExt` is
--   `path_components`, `Iterator::next` is `next`, and `components` is the list of the items.
-- btdt/src/storage/in_memory/dir_node.rs: Storage/InMemory/Tree. A `HashMap` is the list of its
--   entries. A directory behind a `&mut` comes back changed and is written back by `insert`.
-- btdt/src/storage/in_memory/file_node.rs: Storage/InMemory/FileNode. The contents are a list,
--   and an `Arc<FileNode>` is a place in it, so that readers and writers of one file share it.
-- btdt/src/storage/in_memory/mod.rs: Storage/InMemory, with the functions of the trait under
--   their names; a loop over the components of a path is a function `<name>_loop` over the
--   components that are left. Lookup, Put, Delete, View and RoundTrip below it prove.
-- btdt/src/storage/filesystem/mod.rs and staged_file.rs: Storage/Filesystem, with the functions of the
--   trait under their names, Staged with `StagedFile`, and Leftovers with `clean_leftover_tmp_files`. Paths
--   is std::path, a path as its components, with a mark at the end where its text ends in a slash or
--   `/.`, since the system lets no file be opened, made or replaced under such a path. Disk is std::fs as far as it is used: files and directories
--   under names, open files by their number, no symbolic and no hard links; every change may fail, and a
--   write that fails may have written a part; an open or `allocated_size` may fail by the node or content. `read_exact` and `write_all` are the provided methods. View
--   fills the interface of Storage/Interface, and what is below Disk, Places, Canonical, Put, Opened,
--   Writing, Appending, Closing, Closed, Reading, Implements, Staging, Atomic, Cleaning and Cleaned
--   prove. Of two operations one comes first, so other processes are further operations in between.
-- btdt/src/cache/meta.rs: Cache/Meta, over the crates that Cache/Externals takes as parameters.
-- btdt/src/cache/local.rs: Cache/Local. A method is a function from a world (the storage's state,
--   and how often the clock and the random number generator were asked) to a new world and a result.
--   `get` is split at its matches into `touch`, `entry_of`, `blob_of` and `retry`. `clean` is in
--   Cache/Local/Clean: Gather reads the storage, Heap has the heap's order and `pop`, and `evict` is
--   the loop. Sums of sizes wrap at 64 bits, and a panic of `unwrap`, or of a difference of times that is
--   out of range, is the value `panicked`. Found, Eviction, Deleting and Outcome prove.
-- btdt/src/util/http/error.rs and mod.rs: Util/Http. Source is the `BufRead`: bytes in segments, and
--   then the end or an error. Hex, Decimal, Text and Prelude/Utf8 are what std does to numbers and
--   texts. Status and Header are the types of these names; Message is `HttpMessageReader`, with the
--   state as an index, and Body is its `Read`. Request is `HttpRequest`, where a row of `write_all`
--   is `write_pieces`, and Client is `HttpClient`. Network holds the interfaces of the url crate and
--   of the connections. Below Body: Encoding is what is sent, SizeLine, Chunked, Sized and Truncated
--   prove.
-- btdt/src/cache/remote.rs: Cache/Remote. The closures `try_request` are `try_get` and `try_set`, the
--   loop over the headers is `scan`, and what follows the status in `get` is `hit_of`. An error that
--   wraps a `RemoteCacheError` is `refused`. Loop and Session prove.
-- btdt/src/cache/cache_dispatcher.rs: Cache/Dispatcher, over the worlds of the local caches: a
--   dispatcher to a local cache has the number of its world, and Numbered has the worlds by number.
-- btdt/src/pipeline.rs: Pipeline, over a record of the `Cache` trait. The loop over the walk is
--   `add_entries`, and a turn of it `add_entry`. Pipeline/Members proves.
-- btdt-cli/src/hashing.rs: Cli/Hashing. A path is what it leads to: a file, a directory with its
--   entries as they are listed, or something that fails. Sorting and Listing prove.
-- btdt-cli/src/main.rs: Cli/Command has the arguments, `to_cache`, store and restore, with the exit code
--   of the latter; Cli/Clean has clean, over the storage in the file system. `Failure` stands for the
--   contexts of the errors. Command/Access proves.
-- btdt-server/src/app/api.rs and get_from_cache.rs: Server/Api. A handler takes the token and the
--   worlds of the caches and returns the worlds that it leaves with a response or an error by its
--   status.
-- btdt-server/src/main.rs: Server/Cleanup, the clean-up task. Its thread goes through a list of turns,
--   each with what it sees of the clock and of the flag to stop.
--
-- Strings are their UTF-8 bytes, and in HumanBytes their code points. Where a loop needs fuel, it
-- is enough: `collect` takes a segment of the path off with every step and has one more than there
-- are segments; `exactly` of FileNode has as many steps as bytes are asked for, and every step but
-- the last yields one; `evict` has as many as there are blobs, and every step takes one off the
-- heap; `scan` of the size parser has one more than the input has characters, and every step takes one off;
-- `skip_headers` has one more than the stream has bytes and `scan` of the remote cache two more, and every
-- step takes a byte or ends the headers; `read_exactly` has as many as bytes are asked for, and every
-- read but a last one yields one; `create_and_lock` has the five tries of the source; `clean_dir` has
-- one more than the longest location has names, and every step goes down by a name. `evict`, both `scan`
-- and `clean_dir` have a value of their own, `out_of_fuel`, `out_of_turns` or `none`, for a loop that has
-- not come to its end.
-- The locks of the storage are held for the whole of each method, so a method is one step.
--
-- The third-party crates and the system are parameters: chrono, blake3, data_encoding, rkyv, url,
-- rustls, biscuit_auth, ignore, tar, fs2, the connections, the clock and the random number generator.
-- `IsFaithful` of Cache/Externals says what is relied on of the crates of the local cache; `Sends` of
-- Util/Http/Request/Sent says that a stream keeps what is written to it, `Fresh` of
-- Util/Http/Client/Sent that a new one is empty, and `Keeps` of Pipeline/Members that an archive keeps
-- its members. A peer is what it answers to all that was sent.
--
-- Not modelled: of the command line the parsing of its arguments and what it prints, and of the server
-- its start, its configuration, its keys, its logs and the health check. A `flush` of the local caches
-- does nothing that a client sees and is left out, and so is the drop of a cache's writer that was not
-- closed; that of a staged file is modelled. Printing of errors is left out but for those of the HTTP
-- client, since no operation depends on it.
pub mod Prelude
pub mod Server
pub mod Io
pub mod Util
pub mod Storage
pub mod Cache
pub mod Cli
pub mod Pipeline
