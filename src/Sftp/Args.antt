-- ===== src/Sftp/Args.antt =====
-- The command line of sshfs, buildSSHFSArgs of internal/plugins/sftp/mount.go.
--
-- The regular expressions are written out. `net.ParseIP`, `strconv.Atoi`, `strings.TrimSpace` and
-- `filepath.Clean` are parameters; numbers of the configuration are not negative.
pub mod Safe
use kcd.Base.{
  ℕ, String, Bool, true, false, not, ◌&&◌, ◌||◌, Option, none, some, List, [], ◌∷◌, ◌++◌, map, leb,
  ltb, ◌==◌, if◌then◌else◌, length,
}
use kcd.Base.Int.{ℤ, pos, negsuc}
use kcd.Base.Text.{codes, decimal}
use kcd.Sftp.{Text, has_prefix}

pub record Library : Type 0 where
  pub is_ip : Text → Bool
  pub atoi : Text → Option ℤ
  pub trim_port : Text → Text
  pub clean : Text → Text

-- What the phone sends of its server.
pub record SftpBody : Type 0 where
  pub ip : Text
  pub port : Text
  pub user : Text

-- What the host and its configuration give.
pub record Local : Type 0 where
  pub uid : ℕ
  pub gid : ℕ
  pub keepalive_interval : ℕ
  pub keepalive_count : ℕ
  pub extra_opts : List Text
  pub read_only : Bool

abbrev between : ℕ → ℕ → ℕ → Bool
between low high c = leb low c && leb c high

unfoldable pub is_alnum : ℕ → Bool
is_alnum c = between b'A' b'Z' c || (between b'a' b'z' c || between b'0' b'9' c)

unfoldable pub all_of : (ℕ → Bool) → Text → Bool
all_of p [] = true
all_of p (c ∷ s) = p c && all_of p s

-- `^[A-Za-z0-9_][A-Za-z0-9_.-]*$`
unfoldable pub matches_user : Text → Bool
unfolding is_alnum all_of
matches_user [] = false
matches_user (c ∷ s) =
    (is_alnum c || c == b'_')
    && all_of (λ d. is_alnum d || (d == b'_' || (d == b'.' || d == b'-'))) s

-- `([A-Za-z0-9.-]*[A-Za-z0-9])?$`
unfoldable pub matches_host_rest : Text → Bool
unfolding is_alnum
matches_host_rest [] = true
matches_host_rest (c ∷ []) = is_alnum c
matches_host_rest (c ∷ d ∷ s) =
    (is_alnum c || (c == b'.' || c == b'-')) && matches_host_rest (d ∷ s)

-- `^[A-Za-z0-9]` and the rest.
unfoldable pub matches_host : Text → Bool
unfolding matches_host_rest is_alnum
matches_host [] = false
matches_host (c ∷ s) = is_alnum c && matches_host_rest s

pub data BadArgument : Type 0 where
  suspicious_user suspicious_host invalid_host invalid_port suspicious_path : BadArgument

pub data Built : Type 0 where
  refused : BadArgument → Built
  built : List Text → Built

unfoldable pub sshfs_options : Local → List Text
unfolding decimal
sshfs_options l =
    codes "-s"
    ∷ codes "-F"
    ∷ codes "/dev/null"
    ∷ codes "-o"
    ∷ codes "password_stdin"
    ∷ codes "-o"
    ∷ codes "StrictHostKeyChecking=no"
    ∷ codes "-o"
    ∷ codes "UserKnownHostsFile=/dev/null"
    ∷ codes "-o"
    ∷ codes "reconnect"
    ∷ codes "-o"
    ∷ (codes "ServerAliveInterval=" ++ decimal l.keepalive_interval)
    ∷ codes "-o"
    ∷ (codes "ServerAliveCountMax=" ++ decimal l.keepalive_count)
    ∷ codes "-o"
    ∷ codes "auto_cache"
    ∷ codes "-o"
    ∷ codes "kernel_cache"
    ∷ codes "-o"
    ∷ (codes "uid=" ++ decimal l.uid)
    ∷ codes "-o"
    ∷ (codes "gid=" ++ decimal l.gid)
    ∷ []

unfoldable pub extra : List Text → List Text
extra [] = []
extra (o ∷ os) = codes "-o" ∷ o ∷ extra os

abbrev pub empty : Text → Bool
empty [] = true
empty (c ∷ s) = false

unfoldable pub bad_host : Library → Text → Bool
unfolding matches_host
bad_host lib ip = not (lib.is_ip ip) && (not (matches_host ip) || ltb 253 (length ip))

-- The number of the port, if it is one.
unfoldable pub port_of : Library → Text → Option ℕ
port_of lib port = elim (lib.atoi (lib.trim_port port)) [
  | none ↦ none
  | some n ↦ elim n [ pos k ↦ if ltb k 1 || ltb 65535 k then none else some k | negsuc k ↦ none ]
]

unfoldable pub build_sshfs_args : Library → SftpBody → Text → Text → Local → Built
unfolding matches_user bad_host port_of sshfs_options extra has_prefix
build_sshfs_args lib body remote_path mount_point l =
    let dashed : Text → Bool = λ s. empty s || has_prefix s (b'-' ∷ []) in
    let ready : ℕ → Built = λ port. built (
      (body.user ++ (b'@' ∷ (body.ip ++ (b':' ∷ lib.clean remote_path))))
      ∷ mount_point
      ∷ codes "-p"
      ∷ decimal port
      ∷ (sshfs_options l
          ++ ((if l.read_only then codes "-o" ∷ codes "ro" ∷ [] else []) ++ extra l.extra_opts))) in
    let checked : Built = elim (port_of lib body.port) [
      | none ↦ refused invalid_port
      | some port ↦ if dashed remote_path then refused suspicious_path else ready port
    ] in
    if not (matches_user body.user) || ltb 64 (length body.user)
    then refused suspicious_user
    else (if dashed body.ip
        then refused suspicious_host
        else (if bad_host lib body.ip then refused invalid_host else checked))
