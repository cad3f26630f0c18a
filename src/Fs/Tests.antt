-- ===== src/Fs/Tests.antt =====
-- The file system's theorems at concrete inputs.
use bonfire_os.Base.{◌≡◌, List, [], ◌∷◌, arith}
use bonfire_os.Base.Text.{codes}
use bonfire_os.Fs.Path.{slash, normalize_path}
use bonfire_os.Fs.Path.Normal.{normalize_path-parent}
use bonfire_os.Fs.Tree.{Fs, fs_init}
use bonfire_os.Fs.Ops.Invariant.{
  IsTree, FsCall, mkdir, create, write, chdir, run_calls, run_calls-IsTree,
}
use bonfire_os.Fs.Ops.Places.{new_dir, new_root_file}

abbrev fs_empty : Fs
fs_empty = record { files = []; dirs = []; cwd = 0 }

abbrev fs_root : Fs
fs_root = record { files = []; dirs = new_dir (slash ∷ []) 0 ∷ []; cwd = 0 }

-- With the file "/f".
abbrev fs_with_f : Fs
fs_with_f = record fs_root { files = new_root_file (codes "f") ∷ [] }

-- With the directory "/d/".
abbrev fs_below : Fs
fs_below = record fs_root { dirs = new_dir (slash ∷ []) 0 ∷ new_dir (codes "d") 0 ∷ []; cwd = 1 }

normalize_path-parent_example : normalize_path (codes "/a/..") 128 ≡ codes "/a"
normalize_path-parent_example =
    normalize_path-parent 97 [] ((omega arith), (λ e. absurd (omega (arith, e))), tt) (omega arith)
      128 (omega arith)

abbrev some_calls : List FsCall
some_calls =
    mkdir (codes "/d")
    ∷ create (codes "/f")
    ∷ write (codes "/f") (codes "x")
    ∷ chdir (codes "/")
    ∷ []

run_calls-IsTree_example : IsTree (run_calls some_calls (fs_init fs_empty))
run_calls-IsTree_example = run_calls-IsTree some_calls fs_empty
