-- ===== src/Contacts/Mirror.antt =====
-- sync.go: the index mirrors the phone's list, and what is asked for.
use kcd.Base.{◌≡◌, Bool, true, false, not, Option, none, some}
use kcd.Base.Int.{ℤ}
use kcd.Contacts.{eq_ℤ, Entry, new_entry}

-- An entry that has a new stamp.
abbrev pub stamped : ℤ → Option Entry → Entry
stamped ts none = new_entry ts
stamped ts (some e) = record e { timestamp = ts }

-- The contact is not stored, or with another stamp.
abbrev pub outdated : ℤ → Option Entry → Bool
outdated ts none = true
outdated ts (some e) = not (eq_ℤ e.timestamp ts)

-- Nothing is asked for under this stamp.
abbrev Current : ℤ → Option Entry → Type 0
Current ts o = outdated ts o ≡ false
