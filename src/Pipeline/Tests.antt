-- ===== src/Pipeline/Tests.antt =====
-- The theorem about pipeline.rs on a directory with a file, a directory and a link.
use btdt.Prelude.{
  ◌≡◌, refl, ◌+◌, none, some, List, [], ◌∷◌, ◌++◌, Bytes, codes, same, bytes_dec, drop, length,
}
use btdt.Io.{ok, Result}
use btdt.Pipeline.{
  CacheTrait, Archives, Entry, WalkError, is_dir, is_symlink, is_file, store_with_overrides, store,
  add_dir_to_archive, add_entries, add_entry, append, close_archive,
}
use btdt.Pipeline.Members.{Member, Keeps, Stored, store_with_overrides-Stored}

-- A cache that holds the archive that was closed last.
abbrev cache : CacheTrait
cache = record {
  State = List Member;
  Reader = List Member;
  Writer = List Member;
  get = λ keys s. (s, ok none);
  set = λ keys s. (s, ok []);
  close = λ w s. (w, ok tt);
}

abbrev entries : List (Result Entry WalkError)
entries =
    ok (record { path = codes "/r"; file_type = some is_dir })
    ∷ ok (record { path = codes "/r/a"; file_type = some is_file })
    ∷ ok (record { path = codes "/r/d"; file_type = some is_dir })
    ∷ ok (record { path = codes "/r/d/l"; file_type = some is_symlink })
    ∷ []

abbrev archives : Archives cache
archives = record {
  Overrides = Unit;
  no_overrides = tt;
  walk = λ root o. entries;
  strip_prefix = λ root p. some (drop (length root + 1) p);
  read_link = λ p. ok (codes "a");
  File = Bytes;
  open_file = λ p. ok p;
  Builder = List Member;
  new = λ w. [];
  append_dir = λ a p b s. ((s, b ++ ((a, is_dir) ∷ [])), ok tt);
  append_link = λ a t b s. ((s, b ++ ((a, is_symlink) ∷ [])), ok tt);
  append_file = λ a f b s. ((s, b ++ ((a, is_file) ∷ [])), ok tt);
  finish = λ b s. ((s, b), ok tt);
  into_inner = λ b s. (s, ok b);
  unpack = λ r d s. ok tt;
}

keeps : Keeps cache archives
keeps = record {
  members = λ b. b;
  new-members = λ w. refl;
  dir-members = λ a p b s h. refl;
  link-members = λ a t b s h. refl;
  file-members = λ a f b s h. refl;
  finish-members = λ b s h. refl;
}

stores : (store_with_overrides cache archives (codes "k" ∷ []) (codes "/r") tt []).1 ≡ ok tt
unfolding store_with_overrides add_dir_to_archive add_entries add_entry append close_archive same
    bytes_dec
stores = refl

holds :
    (store cache archives (codes "k" ∷ []) (codes "/r") []).0
    ≡ (codes "a", is_file) ∷ (codes "d", is_dir) ∷ (codes "d/l", is_symlink) ∷ []
unfolding store store_with_overrides add_dir_to_archive add_entries add_entry append close_archive
    same bytes_dec
holds = refl

store_with_overrides-Stored_example : Stored cache archives keeps (codes "/r") tt
store_with_overrides-Stored_example =
    store_with_overrides-Stored cache archives keeps (codes "k" ∷ []) (codes "/r") tt [] stores
