-- ===== src/Protocol/Tests.antt =====
-- Runs on device names and ids.
use kcd.Protocol.Framing.{no_line, too_large, packet, read_packets, ends_line}
use kcd.Protocol.Framing.Lines.{Cut, all_slices, read_packets-slices}
use kcd.Base.{ℕ, Option, some, List, take, ◌≡◌, refl, true, false, [], ◌∷◌, arith, ltb}
use kcd.Base.Text.{codes, same_codes}
use kcd.Protocol.Names.{
  Unicode, is_invalid_name_char, invalid_name_chars, keep_runes, take_runes, truncate_runes,
  escape_value, unescape, decode_device_name, strip_control_runes, sanitize_device_name,
  valid_device_id, is_id_char, every,
}
use kcd.Protocol.Names.Laws.{SafeName, sanitize_device_name_lem}

-- Text in ASCII, with nothing that is not UTF-8.
abbrev ascii : Unicode
ascii = record { is_control = λ c. ltb c 32; encode = codes; decode_valid = λ bs. "Pal" }

sanitize_plain : sanitize_device_name ascii "Kim's <phone>" ≡ "Kims phone"
unfolding sanitize_device_name strip_control_runes decode_device_name keep_runes truncate_runes
    take_runes is_invalid_name_char invalid_name_chars unescape
sanitize_plain = refl

sanitize_escaped : sanitize_device_name ascii "\\080al" ≡ "Pal"
unfolding sanitize_device_name strip_control_runes decode_device_name keep_runes truncate_runes
    take_runes is_invalid_name_char invalid_name_chars unescape escape_value same_codes
sanitize_escaped = refl

valid_id : valid_device_id "0123456789abcdef_0123456789abcdef" ≡ true
unfolding valid_device_id is_id_char every
valid_id = refl

invalid_id : valid_device_id "0123456789abcdef_0123456789abcde:" ≡ false
unfolding valid_device_id is_id_char every
invalid_id = refl

sanitize_device_name_lem_example :
    let clean = sanitize_device_name ascii "Kim's <phone>" in
    SafeName ascii clean × (sanitize_device_name ascii clean ≡ clean)
sanitize_device_name_lem_example = sanitize_device_name_lem ascii (λ s h. h) "Kim's <phone>"

-- One line in two pieces that is too long, and one that fits.
abbrev two_lines : List Cut
two_lines =
    record { pieces = codes "abcd" ∷ codes "efgh" ∷ []; last = codes "i" }
    ∷ record { pieces = []; last = codes "xy" }
    ∷ []

abbrev first_two : List ℕ → Option (List ℕ)
first_two bs = some (take 2 bs)

read_packets-slices_example :
    read_packets first_two 6 2 (all_slices two_lines [])
    ≡ (no_line too_large ∷ packet (codes "xy") ∷ [], [])
unfolding ends_line
read_packets-slices_example =
    read_packets-slices first_two 6 two_lines [] (omega arith) ((refl, (refl, tt)), (tt, tt))
