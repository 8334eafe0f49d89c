-- ===== src/Sftp/Release.antt =====
-- Releasing a mount, unmount.go and MountedPath of request.go in internal/plugins/sftp.
--
-- The kernel is the set of paths at which it has a FUSE mount. What the signals to sshfs leave of it,
-- and what the fusermount tool does to it and answers, is an input. `mountExists` opens the kernel's
-- table anew each time and answers false where it cannot; which of its calls can is an input too.
pub mod Forgotten
use kcd.Base.{
  ℕ, String, Bool, true, false, not, ◌&&◌, ◌||◌, Option, none, some, List, [], ◌∷◌, if◌then◌else◌,
  lookup, insert, delete,
}
use kcd.Base.Text.{same_codes}
use kcd.Sftp.{Text}

abbrev pub Kernel : Type 0
Kernel = Text → Bool

pub record Mounts : Type 0 where
  pub mount_points : List (String × Text)
  pub mount_pids : List (String × ℕ)
  pub mount_read_only : List (String × Bool)

-- What fusermount answers: success, or an error, which may say that the endpoint is not connected.
pub data ToolAnswer : Type 0 where
  succeeded dead_endpoint other_error : ToolAnswer

pub record Host : Type 0 where
  -- Where the device is mounted by the configuration, and was in earlier versions; empty if nowhere.
  pub mount_point_for : String → Text
  pub legacy_mount_point_for : String → Text
  pub leftover_dir : Bool
  -- Whether the table can be opened: at the two looks of the search, before the tool, and after it.
  pub table_opens : ℕ → Bool
  pub kill_sshfs : Text → Kernel → Kernel
  pub fusermount : Text → Kernel → Kernel × ToolAnswer
  pub fusermount_lazy : Text → Kernel → Kernel × Bool

abbrev pub is_empty : Text → Bool
is_empty [] = true
is_empty (c ∷ s) = false

-- The answer of `mountExists` at a look.
unfoldable pub sees : Host → ℕ → Kernel → Text → Bool
sees host look k point = host.table_opens look && k point

-- `there` is what `mountExists` answers.
unfoldable pub adopt_if_mounted : Bool → String → Text → Mounts → Mounts × Text
adopt_if_mounted there dev point p =
    if is_empty point
    then (p, [])
    else (if not there
        then (p, [])
        else (record p { mount_points = insert dev point p.mount_points }, point))

-- The search of `MountedPath` for a mount that is not cached.
unfoldable pub find_mount : Host → Kernel → String → Mounts → Mounts × Text
unfolding adopt_if_mounted sees
find_mount host k dev p =
    let primary = host.mount_point_for dev in
    let legacy = host.legacy_mount_point_for dev in
    let (p1, found) = adopt_if_mounted (sees host 0 k primary) dev primary p in
    if not (is_empty found)
    then (p1, found)
    else (if is_empty legacy || same_codes legacy primary
        then (p1, [])
        else adopt_if_mounted (sees host 1 k legacy) dev legacy p1)

unfoldable pub mounted_path : Host → Kernel → String → Mounts → Mounts × Text
unfolding find_mount
mounted_path host k dev p = elim (lookup dev p.mount_points) [
  | some point ↦ (p, point)
  | none ↦ find_mount host k dev p
]

-- The maps of `finishUnmount` and `removeLeftoverDir`.
unfoldable pub finish_unmount : String → Mounts → Mounts
finish_unmount dev p = record p {
  mount_points = delete dev p.mount_points;
  mount_pids = delete dev p.mount_pids;
  mount_read_only = delete dev p.mount_read_only;
}

pub data Released : Type 0 where
  released stuck : Text → Released
  not_mounted : Released

-- The tool, once the mount was seen in the kernel.
unfoldable pub release : Host → String → Text → Kernel → Mounts → Mounts × Kernel × Released
unfolding finish_unmount sees
release host dev point k p =
    let (k1, answered) = host.fusermount point (host.kill_sshfs point k) in
    let (k2, detached) = host.fusermount_lazy point k1 in
    let gone : Mounts × Kernel × Released = (finish_unmount dev p, k1, released point) in
    elim answered [
      | succeeded ↦ gone
      | dead_endpoint ↦
          if sees host 3 k1 point
          then (if detached
              then (finish_unmount dev p, k2, released point)
              else (p, k2, stuck point))
          else gone
      | other_error ↦ if sees host 3 k1 point then (p, k1, stuck point) else gone
    ]

unfoldable pub unmount : Host → String → Kernel → Mounts → Mounts × Kernel × Released
unfolding mounted_path finish_unmount release sees
unmount host dev k p =
    let (p1, point) = mounted_path host k dev p in
    if is_empty point
    then (if host.leftover_dir then finish_unmount dev p1 else p1, k, not_mounted)
    else (if not (sees host 2 k point)
        then (finish_unmount dev p1, k, released point)
        else release host dev point k p1)
