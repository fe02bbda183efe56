-- ===== src/Storage/Interface.antt =====
-- storage/mod.rs: the `Storage` trait with its readers and writers, as operations on an unknown
-- state, and what a storage promises to its clients.
use btdt.Prelude.{◌∙◌, refl, ℕ, ◌≡◌, ◌≤◌, Option, some, List, [], ◌∷◌, ◌++◌, Bytes, length, take}
use btdt.Io.{IoResult, IoPathResult, IoPathError, ok, err, not_found}
use btdt.Storage.{FileHandle, StorageEntry}

-- Every operation returns the state that it leaves, also where it fails. `write_all` and
-- `read_exact` are the provided methods of `std::io` over the implementation's `write` and `read`.
pub record Storage : Type 1 where
  pub State : Type 0
  pub Reader : Type 0
  pub Writer : Type 0
  pub delete : Bytes → State → State × IoPathResult (Unit {0})
  pub get : Bytes → State → IoPathResult (FileHandle Reader)
  pub list : Bytes → State → IoPathResult (List (IoPathResult StorageEntry))
  pub put : Bytes → State → State × IoPathResult Writer
  pub write_all : Writer → Bytes → State → State × IoResult (Unit {0})
  pub close : Writer → State → State × IoResult (Unit {0})
  pub read_exact : Reader → ℕ → State → IoResult Bytes

-- What the files hold, as a client sees it. `Apart` says that two paths do not name one file,
-- `Absent s p` that there is no file and no directory under the path, and `Owns s w p b` that the open
-- writer `w` writes to the file `p`, and has written `b` so far. `hint c` is the size that the storage
-- names for a file with the content `c`.
pub record View (S : Storage) : Type 1 where
  pub Good : S.State → Type 0
  pub Apart : Bytes → Bytes → Type 0
  pub content : S.State → Bytes → Option Bytes
  pub hint : Bytes → ℕ
  pub Absent : S.State → Bytes → Type 0
  pub Owns : S.State → S.Writer → Bytes → Bytes → Type 0

-- A step that touches the file `p` alone.
pub record Touches {S : Storage} (V : View S) (p : Bytes) (s s' : S.State) : Type 0 where
  pub good : V.Good s'
  pub content_eq : (q : Bytes) → V.Apart p q → V.content s' q ≡ V.content s q
  pub owns : (w : S.Writer) (q b : Bytes) → V.Apart p q → V.Owns s w q b → V.Owns s' w q b

pub record IsLawful (S : Storage) (V : View S) : Type 0 where
  pub apart_sym : (p q : Bytes) → V.Apart p q → V.Apart q p
  -- A reader of a file reads its content from the start, and the size hint is the storage's.
  pub get_found :
      (p c : Bytes) (s : S.State)
      → V.Good s
      → V.content s p ≡ some c
      → (h : FileHandle S.Reader) × (S.get p s ≡ ok h)
        × (h.size_hint ≡ V.hint c)
        × ((n : ℕ) → n ≤ length c → S.read_exact h.reader n s ≡ ok (take n c))
  -- Where there is nothing, `get` fails with "not found".
  pub get_absent :
      (p : Bytes) (s : S.State)
      → V.Absent s p
      → (e : IoPathError) × (S.get p s ≡ err e) × (e.error.kind ≡ not_found)
  -- Opening, writing and closing touch one file, also where they fail.
  pub put_touches : (p : Bytes) (s : S.State) → V.Good s → Touches V p s (S.put p s).0
  pub put_owns :
      (p : Bytes) (s : S.State) (w : S.Writer)
      → V.Good s
      → (S.put p s).1 ≡ ok w
      → V.Owns (S.put p s).0 w p []
  pub write_touches :
      (p b c : Bytes) (s : S.State) (w : S.Writer)
      → V.Good s
      → V.Owns s w p b
      → Touches V p s (S.write_all w c s).0
  pub write_owns :
      (p b c : Bytes) (s : S.State) (w : S.Writer)
      → V.Good s
      → V.Owns s w p b
      → (S.write_all w c s).1 ≡ ok tt
      → V.Owns (S.write_all w c s).0 w p (b ++ c)
  pub close_touches :
      (p b : Bytes) (s : S.State) (w : S.Writer)
      → V.Good s
      → V.Owns s w p b
      → Touches V p s (S.close w s).0
  -- What was written is the content after the writer is closed.
  pub close_content :
      (p b : Bytes) (s : S.State) (w : S.Writer)
      → V.Good s
      → V.Owns s w p b
      → (S.close w s).1 ≡ ok tt
      → V.content (S.close w s).0 p ≡ some b

-- A storage whose files can always be written again: no disk is full, and no permission is missing.
pub record IsReliable (S : Storage) (V : View S) : Type 0 where
  pub put_existing :
      (p c : Bytes) (s : S.State)
      → V.Good s
      → V.content s p ≡ some c
      → (w : S.Writer) × ((S.put p s).1 ≡ ok w)
  pub write_succeeds : (w : S.Writer) (b : Bytes) (s : S.State) → (S.write_all w b s).1 ≡ ok tt
  pub close_succeeds : (w : S.Writer) (s : S.State) → (S.close w s).1 ≡ ok tt

module _ {S : Storage} {V : View S} where
  pub Touches-trans :
      {p : Bytes} {s t u : S.State} → Touches V p s t → Touches V p t u → Touches V p s u
  Touches-trans a b = record {
    good = b.good;
    content_eq = λ q h. b.content_eq q h ∙ a.content_eq q h;
    owns = λ w q c h o. b.owns w q c h (a.owns w q c h o);
  }

  pub Touches-refl : (p : Bytes) (s : S.State) → V.Good s → Touches V p s s
  Touches-refl p s g = record { good = g; content_eq = λ q h. refl; owns = λ w q c h o. o }

-- A series of steps that touch the files of the list alone.
module _ {S : Storage} (V : View S) where
  -- Every path of the list is apart from `p`.
  abbrev pub Clear : List Bytes → Bytes → Type 0
  Clear [] p = Unit
  Clear (q ∷ qs) p = V.Apart q p × Clear qs p

  -- The paths of the list name different files.
  abbrev pub Separate : List Bytes → Type 0
  Separate [] = Unit
  Separate (p ∷ ps) = Clear ps p × Separate ps

  -- Every writer of the one list writes to the path of the other list, and has written nothing.
  abbrev pub OwnsAll : S.State → List S.Writer → List Bytes → Type 0
  OwnsAll s [] [] = Unit
  OwnsAll s (w ∷ ws) (p ∷ ps) = V.Owns s w p [] × OwnsAll s ws ps
  OwnsAll s _ _ = ⊥

  pub record TouchesAll (ps : List Bytes) (s s' : S.State) : Type 0 where
    pub good : V.Good s'
    pub content_eq : (q : Bytes) → Clear ps q → V.content s' q ≡ V.content s q
    pub owns : (w : S.Writer) (q b : Bytes) → Clear ps q → V.Owns s w q b → V.Owns s' w q b

  pub TouchesAll-nil : (s : S.State) → V.Good s → TouchesAll [] s s
  TouchesAll-nil s g = record { good = g; content_eq = λ q c. refl; owns = λ w q b c o. o }

  pub TouchesAll-cons :
      {p : Bytes} {ps : List Bytes} {s t u : S.State}
      → Touches V p s t
      → TouchesAll ps t u
      → TouchesAll (p ∷ ps) s u
  TouchesAll-cons a b = record {
    good = b.good;
    content_eq = λ q c. b.content_eq q c.1 ∙ a.content_eq q c.0;
    owns = λ w q x c o. b.owns w q x c.1 (a.owns w q x c.0 o);
  }

  -- A step that was cut short touches no more.
  pub TouchesAll-stop :
      (ps : List Bytes) {p : Bytes} {s t : S.State} → Touches V p s t → TouchesAll (p ∷ ps) s t
  TouchesAll-stop ps a = record {
    good = a.good;
    content_eq = λ q c. a.content_eq q c.0;
    owns = λ w q x c o. a.owns w q x c.0 o;
  }

  pub OwnsAll-Touches :
      (ps : List Bytes) (ws : List S.Writer) {p : Bytes} {s t : S.State}
      → ((q r : Bytes) → V.Apart q r → V.Apart r q)
      → Touches V p s t
      → Clear ps p
      → OwnsAll s ws ps
      → OwnsAll t ws ps
  OwnsAll-Touches [] [] sym a c o = tt
  OwnsAll-Touches (q ∷ qs) (w ∷ ws) sym a c o =
      (a.owns w q [] (sym q _ c.0) o.0, OwnsAll-Touches qs ws sym a c.1 o.1)
  OwnsAll-Touches [] (w ∷ ws) sym a c o = absurd o
  OwnsAll-Touches (q ∷ qs) [] sym a c o = absurd o

  pub TouchesAll-then :
      {p : Bytes} {ps : List Bytes} {s t u : S.State}
      → TouchesAll (p ∷ ps) s t
      → Touches V p t u
      → TouchesAll (p ∷ ps) s u
  TouchesAll-then a b = record {
    good = b.good;
    content_eq = λ q c. b.content_eq q c.0 ∙ a.content_eq q c;
    owns = λ w q x c o. b.owns w q x c.0 (a.owns w q x c o);
  }
