-- ===== src/Fs/Path/Tests.antt =====
-- A walk from an empty root directory, which is also the working directory.
use osassignment.Prelude.{ℕ, false, List, [], ◌∷◌}
use osassignment.Fs.Inode.{t_dir}
use osassignment.Fs.Cache.{FsState}
use osassignment.Fs.Tests.{fresh_disk, empty_inode}

abbrev at_root : FsState
at_root = record {
  disk = fresh_disk;
  cache = record empty_inode { itype = t_dir } ∷ record empty_inode { inum = 0; ref = 0 } ∷ [];
  locked = λ n. false;
}

abbrev a_path : List ℕ
a_path = b'/' ∷ b'/' ∷ b'a' ∷ b'/' ∷ b'x' ∷ []
