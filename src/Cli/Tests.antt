-- ===== src/Cli/Tests.antt =====
-- The commands of btdt-cli on small examples.
use btdt.Prelude.{
  ℕ, ◌≡◌, refl, true, false, Option, none, some, [], ◌∷◌, Bytes, codes, bytes_dec, same,
}
use btdt.Io.{ok, Result}
use btdt.Cache.Remote
use btdt.Cache.Remote.{RemoteCache}
use btdt.Cache.Remote.Tests.{tokens}
use btdt.Cache.Local.Tests.{toy}
use btdt.Util.Http.Tests.{net, urls}
use btdt.Util.Http.Text.{starts_with}
use btdt.Pipeline
use btdt.Pipeline.{CacheTrait, Archives}
use btdt.Storage.Filesystem.Tests.{host, start}
use btdt.Cli.Command.{
  CacheRef, CacheEntriesRef, Machine, ChosenCache, is_remote, to_cache, read_token, to_remote,
  to_local, restore, non_empty, trim_start, trim_end,
}
use btdt.Cli.Command.Access.{IsPrivate, to_cache-IsPrivate, Documented, restore-Documented}
use btdt.Cli.Clean.{CleanFailure, HasEnded, clean, clean-some}

abbrev machine : Machine urls (net (λ s. [])) tokens
machine = record {
  mode = λ path. ok 33152;
  read = λ path. ok (codes "token\n");
  canonicalize = λ path. ok path;
  is_dir = λ path. true;
  from_base64 = λ b. some tt;
  client = λ certs. ok tt;
  parse = λ s. some (s ∷ []);
}

abbrev remote_ref : CacheRef
remote_ref = record {
  cache = codes "http://host/c";
  auth_token_file = some (codes "t");
  root_cert = [];
}

abbrev local_ref : CacheRef
local_ref = record { cache = codes "/r"; auth_token_file = none; root_cert = [] }

abbrev remote_cache : RemoteCache urls (net (λ s. [])) tokens
remote_cache = record { base_url = codes "http://host/c" ∷ []; cache_id = codes "c"; token = tt }

chosen :
    to_cache urls (net (λ s. [])) tokens machine remote_ref ≡ ok (ChosenCache.remote remote_cache)
unfolding to_cache read_token to_remote starts_with trim_start trim_end Remote.new
chosen = refl

to_cache-IsPrivate_example :
    (is_remote urls (net (λ s. [])) tokens machine (codes "http://host/c") ≡ true)
    × IsPrivate urls (net (λ s. [])) tokens machine remote_ref
to_cache-IsPrivate_example =
    to_cache-IsPrivate urls (net (λ s. [])) tokens machine remote_ref remote_cache chosen

-- A cache that has the key `b`
abbrev one_key : CacheTrait
one_key = record {
  State = Unit;
  Reader = Bytes;
  Writer = Bytes;
  get = λ keys s. (s, ok (some (record { key = codes "b"; reader = []; size_hint = none })));
  set = λ keys s. (s, ok []);
  close = λ w s. (s, ok tt);
}

abbrev archives : Archives one_key
archives = record {
  Overrides = Unit;
  no_overrides = tt;
  walk = λ root o. [];
  strip_prefix = λ root p. some p;
  read_link = λ p. ok p;
  File = Bytes;
  open_file = λ p. ok p;
  Builder = Bytes;
  new = λ w. [];
  append_dir = λ a p b s. ((s, b), ok tt);
  append_link = λ a t b s. ((s, b), ok tt);
  append_file = λ a f b s. ((s, b), ok tt);
  finish = λ b s. ((s, b), ok tt);
  into_inner = λ b s. (s, ok b);
  unpack = λ r d s. ok tt;
}

-- The arguments `--keys ,b`: the empty key is left out, but still the primary one.
abbrev entries : CacheEntriesRef
entries = record { keys = [] ∷ codes "b" ∷ []; cache_ref = local_ref }

empty_first :
    (restore urls
      (net (λ s. []))
      tokens
      machine
      one_key
      archives
      (λ c. tt)
      entries
      (codes "d")
      false).1
    ≡ ok 3
unfolding restore to_cache to_local non_empty starts_with Pipeline.restore same bytes_dec
empty_first = refl

restore-Documented_example :
    (c : ChosenCache urls (net (λ s. [])) tokens machine) × (key : Option Bytes) × (to_cache urls
        (net (λ s. []))
        tokens
        machine
        local_ref
      ≡ ok c)
    × ((Pipeline.restore one_key archives (non_empty ([] ∷ codes "b" ∷ [])) (codes "d") tt).1
        ≡ ok key)
    × Documented ([] ∷ codes "b" ∷ []) false key 3
restore-Documented_example =
    restore-Documented urls (net (λ s. [])) tokens machine one_key archives (λ c. tt) entries
      (codes "d") false 3 empty_first

clean-some_example :
    (r : Result (Unit {0}) CleanFailure) × ((clean host toy urls
        (net (λ s. []))
        tokens
        machine
        {D = ℕ}
        (λ n. some n)
        (λ root. record { storage = start; clock = 0; rng = 0 })
        local_ref
        (some 3)
        (some 10)).1
      ≡ some r)
    × HasEnded r
clean-some_example =
    clean-some host toy urls (net (λ s. [])) tokens machine {D = ℕ} (λ n. some n)
      (λ root. record { storage = start; clock = 0; rng = 0 }) local_ref (some 3) (some 10)
