-- ===== src/Sftp/Table.antt =====
-- The kernel's table of mounts, internal/plugins/sftp/mounttable.go.
--
-- The lines of the table are those that `bufio.Scanner` gives, which stops at one of 64 KiB.
pub mod Split
pub mod Found
use kcd.Base.{
  ℕ, zero, suc, ◌||◌, ◌+◌, ◌-◌, ◌*◌, ◌%◌, Bool, true, false, ◌&&◌, Option, none, some, List, [],
  ◌∷◌, leb, ◌==◌, if◌then◌else◌, any, is_some,
}
use kcd.Base.Text.{codes, same_codes}
use kcd.Sftp.{Text, has_prefix}

abbrev pub is_octal : ℕ → Bool
is_octal c = leb b'0' c && leb c b'7'

-- The loop, on what is left; a byte wraps at 256.
unfoldable pub unescape_bytes : Text → Text
unescape_bytes [] = []
unescape_bytes (a ∷ []) = a ∷ []
unescape_bytes (a ∷ b ∷ []) = a ∷ b ∷ []
unescape_bytes (a ∷ b ∷ c ∷ []) = a ∷ b ∷ c ∷ []
unescape_bytes (a ∷ b ∷ c ∷ d ∷ rest) =
    elim (a == b'\\' && (is_octal b && (is_octal c && is_octal d))) [
      | true ↦ ((b - b'0') * 64 + (c - b'0') * 8 + (d - b'0')) % 256 ∷ unescape_bytes rest
      | false ↦ a ∷ unescape_bytes (b ∷ c ∷ d ∷ rest)
    ]

unfoldable pub unescape_mount_path : Text → Text
unfolding unescape_bytes
unescape_mount_path s = if any (λ c. c == b'\\') s then unescape_bytes s else s

-- The width of the white space of Unicode, in UTF-8, that a text begins with, or 0.
abbrev pub width_two : ℕ → ℕ → ℕ
width_two a b = if a == 194 && (b == 133 || b == 160) then 2 else 0

abbrev pub is_wide_space : ℕ → ℕ → ℕ → Bool
is_wide_space a b c =
    (a == 225 && (b == 154 && c == 128))
    || (a == 226
        && (b == 128 && ((leb 128 c && leb c 138) || (c == 168 || (c == 169 || c == 175)))))
    || (a == 226 && (b == 129 && c == 159))
    || (a == 227 && (b == 128 && c == 128))

abbrev pub is_ascii_space : ℕ → Bool
is_ascii_space a = (leb 9 a && leb a 13) || a == 32

unfoldable pub space_width : Text → ℕ
space_width [] = 0
space_width (a ∷ []) = if is_ascii_space a then 1 else 0
space_width (a ∷ b ∷ []) = if is_ascii_space a then 1 else width_two a b
space_width (a ∷ b ∷ c ∷ rest) =
    if is_ascii_space a then 1 else (if is_wide_space a b c then 3 else width_two a b)

unfoldable pub push_field : Text → List Text → List Text
push_field [] fs = fs
push_field (b ∷ f) fs = (b ∷ f) ∷ fs

-- The field that the text begins with, which may be empty, and those after it; some bytes of a white
-- space are still to be skipped.
unfoldable pub split_fields : ℕ → Text → Text × List Text
unfolding space_width push_field
split_fields skip [] = ([], [])
split_fields (suc skip) (b ∷ s) = split_fields skip s
split_fields zero (b ∷ s) =
    let width = space_width (b ∷ s) in
    let (field, others) = split_fields (width - 1) s in
    if width == 0 then (b ∷ field, others) else ([], push_field field others)

-- `strings.Fields`.
unfoldable pub fields : Text → List Text
unfolding split_fields push_field
fields s = let (field, others) = split_fields zero s in push_field field others

-- The mount point of a line, where it is of a FUSE mount.
unfoldable pub fuse_point : List Text → Option Text
unfolding unescape_mount_path has_prefix
fuse_point [] = none
fuse_point (f0 ∷ []) = none
fuse_point (f0 ∷ f1 ∷ []) = none
fuse_point (f0 ∷ f1 ∷ f2 ∷ fs) =
    if has_prefix f2 (codes "fuse") then some (unescape_mount_path f1) else none

-- The first FUSE mount that the test matches, in the lines of the table; `none` also stands for a
-- table that could not be opened, which has no lines here.
unfoldable pub each_mount : (Text → Bool) → List Text → Option Text
unfolding fields fuse_point
each_mount matches [] = none
each_mount matches (line ∷ lines) =
    let rest = each_mount matches lines in
    elim (fuse_point (fields line)) [
      | none ↦ rest
      | some point ↦ if matches point then some point else rest
    ]

unfoldable pub mount_exists : Text → List Text → Bool
unfolding each_mount
mount_exists path lines = is_some (each_mount (λ point. same_codes point path) lines)
