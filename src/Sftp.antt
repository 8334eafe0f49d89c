-- ===== src/Sftp.antt =====
-- The SFTP plugin, internal/plugins/sftp: which mounts the kernel has, the command that mounts a
-- phone, and the release of a mount. A text is its bytes.
pub mod Table
pub mod Args
pub mod Release
mod Tests
use kcd.Base.{ℕ, Bool, true, false, ◌&&◌, ◌||◌, List, [], ◌∷◌, leb, ◌==◌, if◌then◌else◌}

abbrev pub Text : Type 0
Text = List ℕ

-- `strings.HasPrefix`.
unfoldable pub has_prefix : Text → Text → Bool
has_prefix s [] = true
has_prefix [] (p ∷ ps) = false
has_prefix (c ∷ s) (p ∷ ps) = c == p && has_prefix s ps
