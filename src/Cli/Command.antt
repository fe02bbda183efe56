-- ===== src/Cli/Command.antt =====
-- btdt-cli/src/main.rs: the commands that work on a cache, from their arguments on.
pub mod Access
use btdt.Prelude.{
  ℕ, ◌%◌, Bool, true, false, ◌&&◌, ◌||◌, not, Option, none, some, List, [], ◌∷◌, ◌++◌, Bytes, codes,
  same, if◌then◌else◌, ◌==◌,
}
use btdt.Prelude.Utf8.{is_nil}
use btdt.Io.{
  Result, ok, err, ◌>>=◌, map_err, IoError, IoResult, not_a_directory, with_path, IoPathError,
}
use btdt.Cache.Remote
use btdt.Cache.Remote.{RemoteCache, RemoteCacheError, Tokens}
use btdt.Util.Http.Network.{Urls, Network}
use btdt.Util.Http.Text.{starts_with}
use btdt.Pipeline
use btdt.Pipeline.{CacheTrait, Archives, PipelineStop}

pub record CacheRef : Type 0 where
  pub cache : Bytes
  pub auth_token_file : Option Bytes
  pub root_cert : List Bytes

pub record CacheEntriesRef : Type 0 where
  pub keys : List Bytes
  pub cache_ref : CacheRef

-- `CacheEntriesRef::keys`
unfoldable pub non_empty : List Bytes → List Bytes
non_empty [] = []
non_empty (k ∷ ks) = let rest = non_empty ks in if is_nil k then rest else k ∷ rest

-- The errors of the command line, by what went wrong
pub data Failure : Type 0 where
  stat_failed token_unreadable cache_inaccessible client_failed : IoError → Failure
  token_not_private token_invalid token_missing url_invalid : Failure
  remote_failed : RemoteCacheError → Failure
  exclude_invalid : Failure
  not_stored not_restored : PipelineStop → Failure

-- `u8::is_ascii_whitespace` and `trim_ascii`
abbrev pub is_ascii_whitespace : ℕ → Bool
is_ascii_whitespace c = c == 32 || c == 9 || c == 10 || c == 12 || c == 13

unfoldable pub trim_start : Bytes → Bytes
trim_start [] = []
trim_start (c ∷ cs) = let rest = trim_start cs in if is_ascii_whitespace c then rest else c ∷ cs

unfoldable pub trim_end : Bytes → Bytes
trim_end [] = []
trim_end (c ∷ cs) =
    let rest = trim_end cs in if is_ascii_whitespace c && is_nil rest then [] else c ∷ rest

-- What `to_cache` asks the system and the crates. `mode` is that of `fs::metadata`, and `client` is the
-- HTTP client with the root certificates of the paths, or the system's.
pub record Machine (U : Urls) (N : Network) (T : Tokens) : Type 0 where
  pub mode : Bytes → IoResult ℕ
  pub read : Bytes → IoResult Bytes
  pub canonicalize : Bytes → IoResult Bytes
  pub is_dir : Bytes → Bool
  pub from_base64 : Bytes → Option T.Token
  pub client : List Bytes → IoResult (Unit {0})
  pub parse : Bytes → Option U.Url

-- A glob that is excluded is one that is not overridden, and the other way round.
abbrev pub inverted : Bytes → Bytes
inverted [] = b'!' ∷ []
inverted (c ∷ glob) = if c == b'!' then glob else b'!' ∷ c ∷ glob

unfoldable pub add_globs : {B : Type 0} → (Bytes → B → Option B) → List Bytes → B → Option B
add_globs add [] b = some b
add_globs add (glob ∷ globs) b = elim (add (inverted glob) b) [
  | none ↦ none
  | some b' ↦ add_globs add globs b'
]

-- The exit code of `restore`, where it does not fail
abbrev pub first : List Bytes → Option Bytes
first [] = none
first (k ∷ ks) = some k

abbrev pub is_primary : Bytes → Option Bytes → Bool
is_primary k none = false
is_primary k (some p) = same k p

abbrev pub exit_code : List Bytes → Bool → Option Bytes → ℕ
exit_code keys any none = 4
exit_code keys any (some k) = if not any && not (is_primary k (first keys)) then 3 else 0

module _ (U : Urls) (N : Network) (T : Tokens) (M : Machine U N T) where
  -- The cache to use: the local one in a directory, or a remote one
  pub data ChosenCache : Type 0 where
    filesystem : Bytes → ChosenCache
    remote : RemoteCache U N T → ChosenCache

  abbrev pub is_remote : Bytes → Bool
  is_remote cache = starts_with (codes "http://") cache || starts_with (codes "https://") cache

  -- The token, if the file is for its owner alone: `mode & 0o077` are the last six bits.
  unfoldable pub read_token : Bytes → Result T.Token Failure
  unfolding trim_start trim_end
  read_token path = map_err stat_failed (M.mode path) >>= λ mode.
      if not (mode % 64 == 0)
      then err token_not_private
      else map_err token_unreadable (M.read path) >>= λ bytes.
          elim (M.from_base64 (trim_end (trim_start bytes))) [
            | none ↦ err token_invalid
            | some token ↦ ok token
          ]

  unfoldable pub to_remote : Bytes → List Bytes → T.Token → Result ChosenCache Failure
  unfolding Remote.new
  to_remote cache root_cert token = map_err client_failed (M.client root_cert) >>= λ u.
      elim (M.parse cache) [
        | none ↦ err url_invalid
        | some url ↦ map_err remote_failed (Remote.new U N T url token) >>= λ r. ok (remote r)
      ]

  unfoldable pub to_local : Bytes → Result ChosenCache Failure
  to_local cache =
      map_err cache_inaccessible (
        M.canonicalize cache >>= λ path.
        if not (M.is_dir path)
        then err (record { kind = not_a_directory; message = "Not a directory" })
        else ok path)
      >>= λ path. ok (filesystem path)

  -- `CacheRef::to_cache`
  unfoldable pub to_cache : CacheRef → Result ChosenCache Failure
  unfolding read_token to_remote to_local starts_with
  to_cache c = elim (is_remote c.cache) [
    | true ↦ elim c.auth_token_file [
      | none ↦ err token_missing
      | some path ↦ read_token path >>= λ token. to_remote c.cache c.root_cert token
    ]
    | false ↦ to_local c.cache
  ]

  -- The pipeline's archives, the cache as the trait, and the state in which a cache is opened; and the
  -- overrides of the ignore crate.
  module _ (C : CacheTrait) (A : Archives C) (opened : ChosenCache → C.State) where
    unfoldable pub restore : CacheEntriesRef → Bytes → Bool → Option (C.State) × Result ℕ Failure
    unfolding to_cache non_empty Pipeline.restore same
    restore entries destination any = elim (to_cache entries.cache_ref) [
      | err e ↦ (none, err e)
      | ok c ↦
          let (s, r) = Pipeline.restore C A (non_empty entries.keys) destination (opened c) in
          (some s, map_err not_restored r >>= λ key. ok (exit_code entries.keys any key))
    ]

    -- The loop over the excluded globs, and the `build` of the overrides
    unfoldable pub store :
        {B : Type 0}
        → (Bytes → B)
        → (Bytes → B → Option B)
        → (B → Option A.Overrides)
        → CacheEntriesRef
        → Bytes
        → List Bytes
        → Option C.State × Result (Unit {0}) Failure
    unfolding add_globs to_cache non_empty Pipeline.store_with_overrides
    store new add build entries source exclude = elim (add_globs add exclude (new source)) [
      | none ↦ (none, err exclude_invalid)
      | some builder ↦ elim (to_cache entries.cache_ref) [
        | err e ↦ (none, err e)
        | ok c ↦ elim (build builder) [
          | none ↦ (none, err exclude_invalid)
          | some overrides ↦
              let (s, r) =
                Pipeline.store_with_overrides C A (non_empty entries.keys) source overrides
                  (opened c) in
              (some s, map_err not_stored r)
        ]
      ]
    ]
