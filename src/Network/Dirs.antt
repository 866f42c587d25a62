-- ===== src/Network/Dirs.antt =====
-- The two directories of `SafeApply` (safeapply.go), as maps from file names to contents. Their
-- subdirectories are skipped by the program and left out. A fault is the number of file operations
-- that succeed before one fails.
use smoothnas.Prelude.{
  ℕ, zero, suc, Bool, true, false, not, ◌&&◌, ◌||◌, [], ◌∷◌, reverse, Option, none, some, ◌==◌,
  keep,
}
use smoothnas.Prelude.Maps.{Map, put}
use smoothnas.Prelude.Text.{Text, text_eq, codes}

abbrev pub Dir : Type 0
Dir = Map Text Text

abbrev pub Fault : Type 0
Fault = Option ℕ

unfoldable pub has_prefix : Text → Text → Bool
has_prefix s [] = true
has_prefix [] (c ∷ p) = false
has_prefix (a ∷ s) (c ∷ p) = a == c && has_prefix s p

unfoldable pub has_suffix : Text → Text → Bool
unfolding has_prefix
has_suffix s suffix = has_prefix (reverse s) (reverse suffix)

-- The files that a restore removes.
unfoldable pub is_config : Text → Bool
unfolding has_suffix
is_config name =
    has_suffix name (codes ".network")
    || has_suffix name (codes ".netdev")
    || has_suffix name (codes ".link")

-- The loop that reads each file and writes it to the other directory, up to its first error.
unfoldable pub copy_files : Fault → Dir → Dir → Bool × Dir
copy_files f [] dst = (true, dst)
copy_files none ((k, v) ∷ src) dst = copy_files none src (put k v dst)
copy_files (some zero) ((k, v) ∷ src) dst = (false, dst)
copy_files (some (suc n)) ((k, v) ∷ src) dst = copy_files (some n) src (put k v dst)

-- The removal of the old backup, then `MkdirAll`, then the copies.
unfoldable pub backup_files : Fault → Dir → Bool × Option Dir
unfolding copy_files
backup_files (some zero) network = (false, none)
backup_files (some (suc n)) network = let (ok, d) = copy_files (some n) network [] in (ok, some d)
backup_files none network = let (ok, d) = copy_files none network [] in (ok, some d)

unfoldable pub remove_configs : Dir → Dir
remove_configs network = keep (λ e. not (is_config e.0)) network

-- The removals, then `ReadDir` of the backup, then the copies.
unfoldable pub restore_files : Fault → Option Dir → Dir → Bool × Dir
unfolding copy_files remove_configs
restore_files f none network = (false, remove_configs network)
restore_files (some zero) (some backup) network = (false, remove_configs network)
restore_files (some (suc n)) (some backup) network =
    copy_files (some n) backup (remove_configs network)
restore_files none (some backup) network = copy_files none backup (remove_configs network)
