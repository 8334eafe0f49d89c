-- ===== src/RunCommand/Executions/Commands.antt =====
-- runcommand.go: the list that a phone is sent, and the commands that it can run.
use kcd.Base.{◌≡◌, none, [], ◌∷◌, lookup}
use kcd.RunCommand.Executions.{Commands, Executions}

-- Each label stands once, as in a Go map.
abbrev pub Once : Commands → Type 0
Once [] = Unit
Once ((label, command) ∷ cs) = (lookup label cs ≡ none) × Once cs
