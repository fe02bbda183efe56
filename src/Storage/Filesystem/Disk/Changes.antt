-- ===== src/Storage/Filesystem/Disk/Changes.antt =====
-- The changes of a file system that keep it sound.
use btdt.Prelude.{
  ℕ, ◌<◌, ◌≤◌, ◌≡◌, ◌≢◌, refl, ◌∙◌, sym, ap, none, some, [], ◌∷◌, arith, length, inl, inr, ◌⊎◌,
}
use mathlib.Core.Path.{subst}
use btdt.Storage.Filesystem.Disk.Names.{Location, location_dec, lookup, remove}
use btdt.Storage.Filesystem.Disk.{Node, directory, regular, DiskState, node_at, assigned}
use btdt.Storage.Filesystem.Disk.Sound.{IsSound, HasParent, node_at-assigned, node_at-remove}

pub same_nodes : (d e : DiskState) (l : Location) → e.nodes ≡ d.nodes → node_at e l ≡ node_at d l
unfolding node_at
same_nodes d e [] h = refl
same_nodes d e (n ∷ l) h = ap (lookup (n ∷ l)) h

pub same_nodes-IsSound :
    (d e : DiskState) → e.nodes ≡ d.nodes → length d.files ≤ length e.files → IsSound d → IsSound e
same_nodes-IsSound d e h le s = record {
  closed = λ n l x a. same_nodes d e l h ∙ s.closed n l x (sym (same_nodes d e (n ∷ l) h) ∙ a);
  in_range = λ l i a. let b = s.in_range l i (sym (same_nodes d e l h) ∙ a) in omega arith;
  distinct =
      λ l m i a b. s.distinct l m i (sym (same_nodes d e l h) ∙ a) (sym (same_nodes d e m h) ∙ b);
}

pub assigned_self :
    (d : DiskState) (l : Location) (x : Node)
    → node_at d l ≢ some directory
    → node_at (assigned l x d) l ≡ some x
assigned_self d l x g = node_at-assigned d l l x g ∙ ground arith

pub assigned_other :
    (d : DiskState) (l m : Location) (x : Node)
    → node_at d l ≢ some directory
    → l ≢ m
    → node_at (assigned l x d) m ≡ node_at d m
assigned_other d l m x g ne = node_at-assigned d l m x g ∙ ground arith

-- An entry in a directory, which no file has another name for.
pub assigned-IsSound :
    (d : DiskState) (l : Location) (x : Node)
    → IsSound d
    → HasParent d l
    → node_at d l ≢ some directory
    → ((i : ℕ) → x ≡ regular i → i < length d.files)
    → ((i : ℕ) (m : Location) → x ≡ regular i → node_at d m ≢ some (regular i))
    → IsSound (assigned l x d)
assigned-IsSound d l x s p g r u =
    let named : (m : Location) (i : ℕ)
        → node_at (assigned l x d) m ≡ some (regular i)
        → ((l ≡ m) × (x ≡ regular i)) ⊎ (node_at d m ≡ some (regular i)) =
      λ m i a. elim (location_dec l m) [
        | yes e ↦ inl (e, (ground (arith, assigned_self d l x g, a, e)))
        | no ne ↦ inr (sym (assigned_other d l m x g ne) ∙ a)
      ] in
    record {
      closed = λ n m y a.
          let parent : node_at d m ≡ some directory = elim (location_dec l (n ∷ m)) [
            | yes e ↦ subst (HasParent d) e p
            | no ne ↦ s.closed n m y (sym (assigned_other d l (n ∷ m) x g ne) ∙ a)
          ] in
          assigned_other d l m x g (λ e. g (ap (node_at d) e ∙ parent)) ∙ parent;
      in_range = λ m i a. elim (named m i a) [ inl (e, b) ↦ r i b | inr b ↦ s.in_range m i b ];
      distinct = λ m k i a b. elim (named m i a) [
        | inl (e, c) ↦ elim (named k i b) [ inl (f, h) ↦ sym e ∙ f | inr h ↦ absurd (u i k c h) ]
        | inr c ↦ elim (named k i b) [
          | inl (f, h) ↦ absurd (u i m h c)
          | inr h ↦ s.distinct m k i c h
        ]
      ];
    }

abbrev pub removed : Location → DiskState → DiskState
removed l d = record d { nodes = remove l d.nodes }

pub removed_other :
    (d : DiskState) (l m : Location)
    → node_at d l ≢ some directory
    → l ≢ m
    → node_at (removed l d) m ≡ node_at d m
removed_other d l m g ne = node_at-remove d l m g ∙ ground arith

pub removed_self :
    (d : DiskState) (l : Location) → node_at d l ≢ some directory → node_at (removed l d) l ≡ none
removed_self d l g = node_at-remove d l l g ∙ ground arith

pub removed-some :
    (d : DiskState) (l m : Location) (x : Node)
    → node_at d l ≢ some directory
    → node_at (removed l d) m ≡ some x
    → (l ≢ m) × (node_at d m ≡ some x)
removed-some d l m x g a = elim (location_dec l m) [
  | yes e ↦ absurd (ground (arith, removed_self d l g, a, e))
  | no ne ↦ (ne, sym (removed_other d l m g ne) ∙ a)
]

pub removed-IsSound :
    (d : DiskState) (l : Location)
    → IsSound d
    → node_at d l ≢ some directory
    → IsSound (removed l d)
removed-IsSound d l s g = record {
  closed = λ n m y a.
      let parent = s.closed n m y (removed-some d l (n ∷ m) y g a).1 in
      removed_other d l m g (λ e. g (ap (node_at d) e ∙ parent)) ∙ parent;
  in_range = λ m i a. s.in_range m i (removed-some d l m (regular i) g a).1;
  distinct = λ m k i a b.
      s.distinct m k i (removed-some d l m (regular i) g a).1
        (removed-some d l k (regular i) g b).1;
}

pub removed-HasParent :
    (d : DiskState) (l m : Location)
    → node_at d l ≢ some directory
    → HasParent d m
    → HasParent (removed l d) m
removed-HasParent d l [] g h = tt
removed-HasParent d l (n ∷ m) g h = removed_other d l m g (λ e. g (ap (node_at d) e ∙ h)) ∙ h
