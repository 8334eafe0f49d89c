-- ===== src/Contacts.antt =====
-- The contacts plugin, internal/plugins/contacts/sync.go: how the phone's list of contacts changes the
-- index of those that are stored, and which are asked for.
--
-- A response is its list of uids and what its JSON has under each of them; the index is a map from
-- uids to entries. The files of the contacts are not modelled.
pub mod Mirror
mod Tests
use kcd.Base.{
  ℕ, ◌+◌, String, Bool, true, false, not, ◌&&◌, ◌||◌, Option, none, some, List, [], ◌∷◌, ltb, ◌==◌,
  if◌then◌else◌, length, any, str_eq, lookup, insert,
}
use kcd.Base.Int.{ℤ, pos, negsuc}

-- What the JSON text under a uid decodes to; a number by its integral part.
pub data RawStamp : Type 0 where
  malformed other_value : RawStamp
  text : String → RawStamp
  number : ℤ → RawStamp

-- `parse_int` is `strconv.ParseInt` of the trimmed text.
unfoldable pub coerce_timestamp : (String → Option ℤ) → RawStamp → ℤ
coerce_timestamp parse_int malformed = pos 0
coerce_timestamp parse_int other_value = pos 0
coerce_timestamp parse_int (text s) = elim (parse_int s) [ none ↦ pos 0 | some n ↦ n ]
coerce_timestamp parse_int (number (pos n)) = pos n
coerce_timestamp parse_int (number (negsuc n)) = pos 0

abbrev pub eq_ℤ : ℤ → ℤ → Bool
eq_ℤ (pos m) (pos n) = m == n
eq_ℤ (negsuc m) (negsuc n) = m == n
eq_ℤ (pos m) (negsuc n) = false
eq_ℤ (negsuc m) (pos n) = false

pub record Entry : Type 0 where
  pub timestamp : ℤ
  pub fetched : Bool
  pub name : String
  pub phones : List String
  pub emails : List String

-- The zero value, with a stamp.
abbrev pub new_entry : ℤ → Entry
new_entry ts = record { timestamp = ts; fetched = false; name = ""; phones = []; emails = [] }

abbrev pub Index : Type 0
Index = List (String × Entry)

abbrev pub max_contact_uids : ℕ
max_contact_uids = 20000

-- The index, what is asked for, and how many were new or changed.
pub record Diff : Type 0 where
  pub index : Index
  pub to_fetch : List String
  pub added : ℕ
  pub updated : ℕ

-- The round of the loop for one uid.
unfoldable pub diff_one : (String → ℤ) → String → Index → Index × Bool × Bool
diff_one stamp uid idx = elim (lookup uid idx) [
  | none ↦ (insert uid (new_entry (stamp uid)) idx, true, true)
  | some e ↦ (
    insert uid (record e { timestamp = stamp uid }) idx,
    not (eq_ℤ e.timestamp (stamp uid)),
    false,
  )
]

unfoldable pub diff_loop : (String → ℤ) → List String → Index → Diff
unfolding diff_one
diff_loop stamp [] idx = record { index = idx; to_fetch = []; added = 0; updated = 0 }
diff_loop stamp (uid ∷ uids) idx =
    let (idx1, fetched, is_new) = diff_one stamp uid idx in
    let rest = diff_loop stamp uids (if str_eq uid "" then idx else idx1) in
    let taken : Diff = record rest {
      to_fetch = if fetched then uid ∷ rest.to_fetch else rest.to_fetch;
      added = if is_new then rest.added + 1 else rest.added;
      updated = if fetched && not is_new then rest.updated + 1 else rest.updated;
    } in
    if str_eq uid "" then rest else taken

abbrev pub is_seen : String → List String → Bool
is_seen uid uids = not (str_eq uid "") && any (λ u. str_eq u uid) uids

-- The entries that stay, and how many go.
unfoldable pub keep_seen : List String → Index → Index × ℕ
keep_seen uids [] = ([], 0)
keep_seen uids ((uid, e) ∷ es) =
    let (kept, deleted) = keep_seen uids es in
    if is_seen uid uids then ((uid, e) ∷ kept, deleted) else (kept, deleted + 1)

-- What the part under the lock gives: the index, what is asked for, and the three counts.
pub record SyncResult : Type 0 where
  pub index : Index
  pub to_fetch : List String
  pub added : ℕ
  pub updated : ℕ
  pub deleted : ℕ

-- `handleUIDsResponse`, where the body has a list of uids. `has_dir` is whether the directory of the
-- device is found, and `saved` whether the index is written: if not, the stored one stays.
unfoldable pub handle_uids_response : Bool → Bool → (String → ℤ) → List String → Index → SyncResult
unfolding diff_loop keep_seen
handle_uids_response has_dir saved stamp uids idx =
    let d = diff_loop stamp uids idx in
    let (kept, deleted) = keep_seen uids d.index in
    let index : Index = if ltb 0 (length uids) then kept else d.index in
    let done : SyncResult = record {
      index = if saved then index else idx;
      to_fetch = d.to_fetch;
      added = d.added;
      updated = d.updated;
      deleted = if ltb 0 (length uids) then deleted else 0;
    } in
    if ltb max_contact_uids (length uids) || not has_dir
    then record { index = idx; to_fetch = []; added = 0; updated = 0; deleted = 0 }
    else done

-- What is read out of a vCard.
pub record Summary : Type 0 where
  pub uid : String
  pub name : String
  pub phones : List String
  pub emails : List String

-- The entries of the vCards that were written, in their order; the checks, the parser and the files
-- are not modelled.
unfoldable pub store_vcards : List Summary → Index → Index
store_vcards [] idx = idx
store_vcards (v ∷ vs) idx =
    let entry : Entry = elim (lookup v.uid idx) [ none ↦ new_entry (pos 0) | some e ↦ e ] in
    store_vcards vs (
      insert v.uid
        (record entry { fetched = true; name = v.name; phones = v.phones; emails = v.emails }) idx)

-- A response with vCards: the stored index after it, and whether it could be written.
unfoldable pub handle_vcards_response : Bool → List Summary → Index → Index
unfolding store_vcards
handle_vcards_response saved vs idx = if saved then store_vcards vs idx else idx
