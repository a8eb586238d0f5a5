-- ===== src/Waiting/Tests.antt =====
-- A root with two entries, of which one has an entry.
use cse522s.Base.{◌≡◌, refl, [], ◌∷◌, get_or}
use cse522s.Waiting.Vfs.{FsPath, Kernel, name, subnames}

abbrev kernel : Kernel
kernel = record {
  fs = 1;
  files = 2;
  nsproxy = 3;
  pwd = record { mnt = 4; dentry = 5 };
  root = record { mnt = 4; dentry = 5 };
  mnt_root = λ m. m;
  mnt_sb = λ m. m;
  d_iname = λ d. d ∷ [];
  d_subdirs = λ d. get_or ([] ∷ [] ∷ [] ∷ [] ∷ [] ∷ (6 ∷ 7 ∷ []) ∷ (8 ∷ []) ∷ []) d [];
}

subdirectories : subnames kernel (kernel.d_subdirs 5) ≡ name (8 ∷ []) ∷ []
unfolding subnames cse522s.Waiting.Vfs.names
subdirectories = refl
