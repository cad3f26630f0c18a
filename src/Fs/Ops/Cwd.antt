-- ===== src/Fs/Ops/Cwd.antt =====
-- The path of the current directory.
use bonfire_os.Base.{ℕ, ◌≡◌, List, [], ◌∷◌}
use bonfire_os.Fs.Tree.{Fs, dir_parent}

-- Each of `xs` is the parent of the next, the first a child of `d`, and the last is `t`.
abbrev pub Descends : Fs → ℕ → List ℕ → ℕ → Type 0
Descends fs d [] t = d ≡ t
Descends fs d (x ∷ xs) t = (dir_parent x fs ≡ d) × Descends fs x xs t
