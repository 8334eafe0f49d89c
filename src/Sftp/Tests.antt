-- ===== src/Sftp/Tests.antt =====
-- Runs of the SFTP plugin's functions.
use kcd.Base.{ℕ, All, ◌≡◌, ◌≤◌, refl, true, false, Bool, some, List, [], ◌∷◌, arith, ◌==◌, any, map}
use kcd.Base.Int.{pos}
use kcd.Base.Text.{codes}
use kcd.Sftp.{has_prefix}
use kcd.Sftp.Table.{space_width, mount_exists}
use kcd.Sftp.Table.Found.{Mount, IsWritable, line_of, is_fuse_at, mount_exists-line_of}
use kcd.Sftp.Release.{Kernel, Mounts, succeeded, Host}
use kcd.Sftp.Release.Forgotten.{Forgotten}
use kcd.Sftp.Args.{
  Library, SftpBody, Local, build_sshfs_args, matches_user, is_alnum, all_of, matches_host,
  matches_host_rest, bad_host, port_of, empty,
}
use kcd.Sftp.Args.Safe.{arguments, mentions, StartsWord, build_sshfs_args-Safe}

abbrev is_special : ℕ → Bool
is_special c = any (λ d. c == d) (codes "\\ \n\t")

abbrev two_mounts : List Mount
two_mounts =
    record { device = codes "p"; point = codes "/a b"; fstype = codes "fuse.sshfs"; options = [] }
    ∷ record {
      device = codes "d";
      point = codes "/c";
      fstype = codes "ext4";
      options = codes "rw" ∷ [];
    }
    ∷ []

two_mounts-IsWritable : All (IsWritable is_special) two_mounts
unfolding space_width
two_mounts-IsWritable = ground arith

mount_exists-line_of_example :
    mount_exists (codes "/a b") (map (line_of is_special) two_mounts)
    ≡ any (is_fuse_at (codes "/a b")) two_mounts
mount_exists-line_of_example =
    mount_exists-line_of is_special refl two_mounts (codes "/a b") two_mounts-IsWritable

-- A host where fusermount takes away the mount.
abbrev willing : Host
willing = record {
  mount_point_for = λ dev. codes "/m";
  legacy_mount_point_for = λ dev. [];
  leftover_dir = false;
  table_opens = λ look. true;
  kill_sshfs = λ point k. k;
  fusermount = λ point k. (λ path. false, succeeded);
  fusermount_lazy = λ point k. (λ path. false, true);
}

abbrev one_mount : Mounts
one_mount = record {
  mount_points = ("a", codes "/m") ∷ ("b", codes "/n") ∷ [];
  mount_pids = ("a", 7) ∷ [];
  mount_read_only = [];
}

abbrev all_there : Kernel
all_there = λ path. true

-- No text is an address here, each is the port 1739, and paths are clean.
abbrev simple : Library
simple = record {
  is_ip = λ s. false;
  atoi = λ s. some (pos 1739);
  trim_port = λ s. s;
  clean = λ s. s;
}

abbrev phone : SftpBody
phone = record { ip = codes "phone"; port = codes "1739"; user = codes "kdeconnect" }

abbrev here : Local
here = record {
  uid = 1000;
  gid = 1000;
  keepalive_interval = 15;
  keepalive_count = 3;
  extra_opts = [];
  read_only = true;
}

build_sshfs_args-Safe_example :
    (port : ℕ) × (arguments simple phone (codes "/storage") (codes "/m") here 1739
      ≡ arguments simple phone (codes "/storage") (codes "/m") here port)
    × (1 ≤ port)
    × (port ≤ 65535)
    × StartsWord phone.user
    × (mentions b'@' phone.user ≡ false)
    × (mentions b'@' phone.ip ≡ false)
    × (empty phone.ip ≡ false)
    × (has_prefix phone.ip (b'-' ∷ []) ≡ false)
unfolding build_sshfs_args matches_user is_alnum all_of bad_host matches_host matches_host_rest
    port_of has_prefix
build_sshfs_args-Safe_example =
    build_sshfs_args-Safe simple phone (codes "/storage") (codes "/m") here
      (arguments simple phone (codes "/storage") (codes "/m") here 1739) (λ s e. ground (arith, e))
      refl
