-- ===== src/Contacts/Tests.antt =====
-- Runs of the contacts plugin on small lists.
use kcd.Base.{String, true, List, [], ◌∷◌, str_eq, if◌then◌else◌}
use kcd.Base.Int.{ℤ, pos}
use kcd.Contacts.{Index, Summary}

abbrev stored : Index
stored =
    ("ann", record { timestamp = pos 1; fetched = true; name = "Ann"; phones = []; emails = [] })
    ∷ ("bob", record { timestamp = pos 1; fetched = true; name = "Bob"; phones = []; emails = [] })
    ∷ []

abbrev listed : List String
listed = "ann" ∷ "" ∷ "eve" ∷ []

abbrev stamps : String → ℤ
stamps uid = if str_eq uid "ann" then pos 2 else pos 1

-- The vCard of Ann comes, that of Eve does not.
abbrev some_vcards : List Summary
some_vcards = record { uid = "ann"; name = "Ann"; phones = "1" ∷ []; emails = [] } ∷ []
