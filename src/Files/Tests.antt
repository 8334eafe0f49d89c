-- ===== src/Files/Tests.antt =====
-- Hostile and plain file names.
use kcd.Base.{◌≡◌, ◌⊎◌, refl, ltb, ◌==◌, if◌then◌else◌, str_eq}
use kcd.Protocol.Names.{keep_runes}
use kcd.Files.{Library, default_fallback_filename, sanitize_filename}
use kcd.Files.Safe.{IsEntry, sanitize_filename_lem}

-- Names of one element.
abbrev flat : Library
flat = record { base = λ s. s; is_control = λ r. ltb r 32; is_space = λ r. r == b' ' }

hidden : sanitize_filename flat ".bashrc " "" ≡ "bashrc"
unfolding sanitize_filename keep_runes
hidden = refl

-- A space in front keeps the dot.
spaced : sanitize_filename flat " .bashrc" "" ≡ ".bashrc"
unfolding sanitize_filename keep_runes
spaced = refl

parent : sanitize_filename flat ".." "" ≡ "downloaded_file"
unfolding sanitize_filename keep_runes
parent = refl

sanitize_filename_lem_example :
    let clean = sanitize_filename flat " .bashrc" "" in
    (clean ≡ (if str_eq "" "" then default_fallback_filename else "")) ⊎ IsEntry flat clean
sanitize_filename_lem_example = sanitize_filename_lem flat " .bashrc" ""
