-- ===== src/Fs/TreeLaws.antt =====
-- The captured tree stays a tree: the parent of each named object is a directory.
use det_sim.Base.{
  ◌≡◌, refl, ◌∙◌, ap, Bool, true, false, Option, none, some, arith, if◌then◌else◌, subst,
}
use det_sim.Fs.Strings.{Text, same, same-eq, is_absolute, root, parent_of}
use det_sim.Fs.Tree.{
  Tree, look, put_at, change_at, erase_at, apply, look-put_at, look-change_at, look-erase_at,
}
use det_sim.Fs.State.{VfsNode, is_dir}

-- A directory, or an object that is none.
abbrev pub IsDir : Option VfsNode → Type 0
IsDir none = ⊥
IsDir (some n) = is_dir n ≡ true

abbrev pub NotDir : Option VfsNode → Type 0
NotDir none = Unit {0}
NotDir (some n) = is_dir n ≡ false

abbrev pub IsThere : Option VfsNode → Type 0
IsThere none = ⊥
IsThere (some n) = Unit {0}

-- Every object with an absolute name but the root stands in a directory.
abbrev pub IsTree : Tree VfsNode → Type 0
IsTree fs =
    (path : Text)
    → is_absolute path ≡ true
    → same path root ≡ false
    → IsThere (look path fs)
    → IsDir (look (parent_of path) fs)

clash : (o : Option VfsNode) → IsDir o → NotDir o → ⊥
clash none d n = d
clash (some v) d n = ground arith

module _ (fs : Tree VfsNode) (tree : IsTree fs) where
  pub change-IsTree :
      (k : Text) (f : VfsNode → VfsNode)
      → ((n : VfsNode) → is_dir (f n) ≡ is_dir n)
      → IsTree (change_at k f fs)
  change-IsTree k f h path a r t = rw (look-change_at k (parent_of path) f fs) (
      keeps (same k (parent_of path)) (look (parent_of path) fs)
        (tree path a r (there (same k path) (look path fs) (rw (look-change_at k path f fs) at t))))
    where
      there : (b : Bool) (o : Option VfsNode) → IsThere (if b then apply f o else o) → IsThere o
      there true none t = t
      there true (some n) t = tt
      there false o t = t

      keeps : (b : Bool) (o : Option VfsNode) → IsDir o → IsDir (if b then apply f o else o)
      keeps true none d = d
      keeps true (some n) d = h n ∙ d
      keeps false o d = d

  -- An object that is no directory goes.
  pub erase-IsTree : (k : Text) → NotDir (look k fs) → IsTree (erase_at k fs)
  erase-IsTree k h path a r t = rw (look-erase_at k (parent_of path) fs) (
      keeps (same k (parent_of path)) refl
        (tree path a r (there (same k path) (look path fs) (rw (look-erase_at k path fs) at t))))
    where
      there : (b : Bool) (o : Option VfsNode) → IsThere (if b then none else o) → IsThere o
      there true o t = absurd t
      there false o t = t

      keeps :
          (b : Bool)
          → same k (parent_of path) ≡ b
          → IsDir (look (parent_of path) fs)
          → IsDir (if b then none else look (parent_of path) fs)
      keeps true e d =
          clash (look (parent_of path) fs) d
            (subst (λ x. NotDir (look x fs)) (same-eq k (parent_of path) e) h)
      keeps false e d = d

  -- An object is put where no directory is, into a directory.
  pub put-IsTree :
      (k : Text) (v : VfsNode)
      → NotDir (look k fs)
      → IsDir (look (parent_of k) fs)
      → IsTree (put_at k v fs)
  put-IsTree k v h d path a r t =
      rw (look-put_at k (parent_of path) v fs)
        (keeps (same k (parent_of path)) refl (parent (same k path) refl))
    where
      parent : (b : Bool) → same k path ≡ b → IsDir (look (parent_of path) fs)
      parent true e = subst (λ x. IsDir (look (parent_of x) fs)) (same-eq k path e) d
      parent false e = tree path a r (
          subst IsThere (look-put_at k path v fs ∙ ap (λ x. if x then some v else look path fs) e)
            t)

      keeps :
          (b : Bool)
          → same k (parent_of path) ≡ b
          → IsDir (look (parent_of path) fs)
          → IsDir (if b then some v else look (parent_of path) fs)
      keeps true e d' = absurd (
          clash (look (parent_of path) fs) d'
            (subst (λ x. NotDir (look x fs)) (same-eq k (parent_of path) e) h))
      keeps false e d' = d'
