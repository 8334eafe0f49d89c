-- ===== src/Sftp/Release/Forgotten.antt =====
-- unmount.go: when a mount is forgotten.
use kcd.Base.{ℕ, ◌≡◌, ◌⊎◌, String, true, false, none, some, [], lookup}
use kcd.Sftp.{Text}
use kcd.Sftp.Release.{
  Kernel, Mounts, succeeded, Host, is_empty, finish_unmount, Released, released, stuck,
}

-- What fusermount promises: where it succeeds, the mount is gone.
pub record Honest (host : Host) : Type 0 where
  pub fusermount_gone :
      (point : Text) (k : Kernel)
      → (host.fusermount point k).1 ≡ succeeded
      → (host.fusermount point k).0 point ≡ false
  pub lazy_gone :
      (point : Text) (k : Kernel)
      → (host.fusermount_lazy point k).1 ≡ true
      → (host.fusermount_lazy point k).0 point ≡ false

-- Nothing is known of the device.
abbrev pub Forgotten : String → Mounts → Type 0
Forgotten dev p =
    (lookup dev p.mount_points ≡ none)
    × (lookup dev p.mount_pids ≡ none)
    × (lookup dev p.mount_read_only ≡ none)

-- The kernel's table could not be opened at some look.
abbrev pub Blind : Host → Type 0
Blind host = (look : ℕ) × (host.table_opens look ≡ false)

-- What a release comes to: the mount is gone and forgotten, or it is still tracked. Where the table
-- could not be opened, it may be there and forgotten.
abbrev pub Settled : Host → String → Text → Mounts → Mounts × Kernel × Released → Type 0
Settled host dev point p (p', k', r) =
    ((r ≡ released point) × (p' ≡ finish_unmount dev p) × ((k' point ≡ false) ⊎ Blind host))
    ⊎ ((r ≡ stuck point) × (p' ≡ p))

-- The configuration puts no mount of the device anywhere, or the kernel has none there, or it could not
-- be asked.
abbrev pub NoneThere : Host → Kernel → String → Type 0
NoneThere host k dev =
    (is_empty (host.mount_point_for dev) ≡ true)
    ⊎ (k (host.mount_point_for dev) ≡ false)
    ⊎ Blind host

-- An empty path is cached for the device, or none is and no mount was found.
abbrev pub NoneFound : Host → Kernel → String → Mounts → Type 0
NoneFound host k dev p =
    (lookup dev p.mount_points ≡ some [])
    ⊎ ((lookup dev p.mount_points ≡ none) × NoneThere host k dev)

-- Where a search ends: with nothing, or with a path that is tracked.
abbrev Searched : Host → Kernel → String → Mounts × Text → Type 0
Searched host k dev (p1, point) =
    ((is_empty point ≡ true) × NoneThere host k dev)
    ⊎ ((is_empty point ≡ false) × (lookup dev p1.mount_points ≡ some point))
