-- ===== src/Cli/Command/Access.antt =====
-- What `to_cache` and `restore` of btdt-cli/src/main.rs promise.
use btdt.Prelude.{
  ℕ, ◌%◌, ◌≡◌, ◌≢◌, ◌⊎◌, refl, Bool, true, false, not, Option, none, some, List, [], ◌∷◌, Bytes,
  ◌==◌, inl, inr, arith, Bool-cases, Option-cases, same, same_sound, if◌then◌else◌,
}
use btdt.Io.{
  not_a_directory, ◌>>=◌, Result, Result-cases, ok, err, bind-ok, map_err, err-ok, ok-subst,
}
use btdt.Cache.Remote.{RemoteCache, Tokens}
use btdt.Util.Http.Network.{Urls, Network}
use btdt.Pipeline
use btdt.Pipeline.{CacheTrait, Archives}
use btdt.Cli.Command.{
  cache_inaccessible, CacheRef, CacheEntriesRef, Machine, Failure, ChosenCache, is_remote, to_cache,
  read_token, to_local, restore, non_empty, exit_code, first,
}

module _ (U : Urls) (N : Network) (T : Tokens) (M : Machine U N T) where
  -- The token of a file that is for its owner alone
  pub record IsPrivate (c : CacheRef) : Type 0 where
    pub path : Bytes
    pub mode : ℕ
    pub given : c.auth_token_file ≡ some path
    pub mode_eq : M.mode path ≡ ok mode
    pub private : mode % 64 ≡ 0

  read_token-mode :
      (path : Bytes) (token : T.Token)
      → read_token U N T M path ≡ ok token
      → (mode : ℕ) × (M.mode path ≡ ok mode) × (mode % 64 ≡ 0)
  unfolding read_token
  read_token-mode path token h = elim (Result-cases (M.mode path)) [
    | inr (e, a) ↦ absurd (err-ok _ _ (rw (read_token, a) at h))
    | inl (mode, a) ↦ elim (Bool-cases (mode % 64 == 0)) [
      | inl b ↦ (mode, a, ground arith)
      | inr b ↦ absurd (err-ok _ _ (rw (read_token, a, b) at h))
    ]
  ]

  other_cache :
      {r : RemoteCache U N T} (path : Bytes)
      → ◌≡◌ {A = Result (ChosenCache U N T M) Failure}
          (ok (ChosenCache.filesystem path))
          (ok (ChosenCache.remote r))
      → ⊥
  other_cache path h = cc h

  -- A remote cache is used for a URL alone, with the token of a file that neither its group nor others
  -- can access.
  pub to_cache-IsPrivate :
      (c : CacheRef) (r : RemoteCache U N T)
      → to_cache U N T M c ≡ ok (ChosenCache.remote r)
      → (is_remote U N T M c.cache ≡ true) × IsPrivate c
  unfolding to_cache to_local
  to_cache-IsPrivate c r h = elim (Bool-cases (is_remote U N T M c.cache)) [
    | inr a ↦ absurd (local c.cache (rw (to_cache, a) at h))
    | inl a ↦ elim (Option-cases c.auth_token_file) [
      | inl b ↦ absurd (err-ok _ _ (rw (to_cache, a, b) at h))
      | inr (path, b) ↦ elim (Result-cases (read_token U N T M path)) [
        | inr (e, d) ↦ absurd (err-ok _ _ (rw (to_cache, a, b, d) at h))
        | inl (token, d) ↦
            let (mode, e, f) = read_token-mode path token d in
            (a, record { path = path; mode = mode; given = b; mode_eq = e; private = f })
      ]
    ]
  ]
    where
      local : (cache : Bytes) → to_local U N T M cache ≡ ok (ChosenCache.remote r) → ⊥
      local cache h =
          let (path, a, b) =
            bind-ok
              (map_err cache_inaccessible (
                M.canonicalize cache >>= λ path.
                if not (M.is_dir path)
                then err (record { kind = not_a_directory; message = "Not a directory" })
                else ok path))
              (λ path. ok (ChosenCache.filesystem path)) (ChosenCache.remote r) h in
          other_cache path b

-- The outcomes of a restore that the documentation of the command names, by their exit codes
abbrev pub Documented : List Bytes → Bool → Option Bytes → ℕ → Type 0
Documented keys any none code = code ≡ 4
Documented keys any (some k) code =
    ((code ≡ 0) × ((any ≡ true) ⊎ (first keys ≡ some k)))
    ⊎ ((code ≡ 3) × (any ≡ false) × (first keys ≢ some k))

same_ne : (s t : Bytes) → same s t ≡ false → s ≢ t
unfolding same
same_ne s t h e = ground arith

exit_code-Documented :
    (keys : List Bytes) (any : Bool) (o : Option Bytes)
    → Documented keys any o (exit_code keys any o)
exit_code-Documented keys any none = refl
exit_code-Documented keys true (some k) = inl (refl, inl refl)
exit_code-Documented [] false (some k) = inr (refl, refl, λ e. (ground arith))
exit_code-Documented (p ∷ keys) false (some k) = elim (Bool-cases (same k p)) [
  | inl a ↦ inl (rw a refl, inr (rw (same_sound k p a) refl))
  | inr a ↦ inr (rw a refl, refl, λ e. same_ne k p a (ground arith))
]

module _ (U : Urls) (N : Network) (T : Tokens) (M : Machine U N T) where
  module _ (C : CacheTrait) (A : Archives C) (opened : ChosenCache U N T M → C.State) where
    -- A restore that ends with an exit code has opened the cache and run the pipeline with the keys that
    -- are not empty. The code is 4 if no key was restored, 0 if it was the first one, the empty ones
    -- counted, or any key will do, and 3 otherwise.
    pub restore-Documented :
        (entries : CacheEntriesRef) (destination : Bytes) (any : Bool) (code : ℕ)
        → (restore U N T M C A opened entries destination any).1 ≡ ok code
        → (c : ChosenCache U N T M) × (key : Option Bytes) × (to_cache U N T M entries.cache_ref
            ≡ ok c)
          × ((Pipeline.restore C A (non_empty entries.keys) destination (opened c)).1 ≡ ok key)
          × Documented entries.keys any key code
    unfolding restore
    restore-Documented entries destination any code h =
        elim (Result-cases (to_cache U N T M entries.cache_ref)) [
          | inr (e, a) ↦ absurd (err-ok _ _ (rw (restore, a) at h))
          | inl (c, a) ↦
              elim (Result-cases
                (Pipeline.restore C A (non_empty entries.keys) destination (opened c)).1) [
                  | inr (e, b) ↦ absurd (err-ok _ _ (rw (restore, a, b) at h))
                  | inl (key, b) ↦ (
                    c,
                    key,
                    a,
                    b,
                    ok-subst (Documented entries.keys any key) (rw (restore, a, b) at h)
                        (exit_code-Documented entries.keys any key),
                  )
                ]
        ]
