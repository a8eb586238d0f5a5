-- ===== src/Waiting/Vfs.antt =====
-- studio6/vfs_module.c: what its thread prints of the file system before it waits. Pointers are numbers,
-- and what the kernel's structures hold is given by functions.
use cse522s.Base.{ℕ, List, [], ◌∷◌, ◌++◌, ◌==◌, if◌then◌else◌}

-- `struct path`
pub record FsPath : Type 0 where
  pub mnt : ℕ
  pub dentry : ℕ

-- The structures that the thread reads.
pub record Kernel : Type 0 where
  pub fs : ℕ
  pub files : ℕ
  pub nsproxy : ℕ
  pub pwd : FsPath
  pub root : FsPath
  pub mnt_root : ℕ → ℕ
  pub mnt_sb : ℕ → ℕ
  pub d_iname : ℕ → List ℕ
  pub d_subdirs : ℕ → List ℕ  -- through `d_child`

pub data Line : Type 0 where
  pointer : ℕ → Line
  name : List ℕ → Line
  heading : Line
  newline : Line

module _ (k : Kernel) where
  abbrev pub mounts : List Line
  mounts =
      pointer k.fs
      ∷ pointer k.files
      ∷ pointer k.nsproxy
      ∷ pointer k.pwd.mnt
      ∷ pointer k.root.mnt
      ∷ (if k.root.mnt == k.pwd.mnt
          then []
          else pointer (k.mnt_root k.pwd.mnt)
            ∷ pointer (k.mnt_sb k.pwd.mnt)
            ∷ pointer (k.mnt_root k.root.mnt)
            ∷ pointer (k.mnt_sb k.root.mnt)
            ∷ [])

  abbrev pub dentries : List Line
  dentries =
      pointer k.pwd.dentry
      ∷ pointer k.root.dentry
      ∷ (if k.pwd.dentry == k.root.dentry
          then []
          else name (k.d_iname k.pwd.dentry) ∷ name (k.d_iname k.root.dentry) ∷ [])

  -- `list_for_each_entry`
  unfoldable pub names : List ℕ → List Line
  names [] = []
  names (entry ∷ entries) = name (k.d_iname entry) ∷ names entries

  unfoldable pub subnames : List ℕ → List Line
  subnames [] = []
  subnames (entry ∷ entries) = names (k.d_subdirs entry) ++ subnames entries

  unfoldable pub thread_fn : List Line
  thread_fn =
      mounts
      ++ (dentries
          ++ (heading
              ∷ (names (k.d_subdirs k.root.dentry)
                  ++ (newline ∷ heading ∷ (subnames (k.d_subdirs k.root.dentry) ++ newline ∷ [])))))
