-- ===== src/Clipboard.antt =====
-- The clipboard plugin, internal/plugins/clipboard: handle.go, push.go and the state of types.go.
--
-- The tools that read and write the desktop's clipboard are inputs and outputs: what a read gave, and
-- the text that is accepted. `Handle` starts a goroutine that copies this text to the desktop after the
-- lock is given up; `Desktop` has these goroutines, which end in any order. Times are milliseconds, and a timestamp that is not positive counts as 0.
pub mod Echo
mod Tests
use kcd.Base.{
  ℕ, String, Bool, true, false, not, ◌&&◌, ◌||◌, Option, none, some, List, [], ◌∷◌, ◌++◌, zero, suc,
  ltb, ◌==◌, if◌then◌else◌, str_eq,
}
use Prim.Native.Char.{code}
use Prim.Native.String as S

pub record Clipboard : Type 0 where
  pub receiving : Bool
  pub sending : Bool
  pub last_timestamp : ℕ
  pub local_changed_at : ℕ
  pub last_content : String
  pub last_pushed_content : String

unfoldable pub set_policy : Bool → Bool → Clipboard → Clipboard
set_policy receive send p = record p { receiving = receive; sending = send }

unfoldable pub set_local_changed_at : ℕ → Clipboard → Clipboard
set_local_changed_at ts p = record p { local_changed_at = ts }

-- `strings.TrimRight` with a line feed.
unfoldable pub norm_clip : String → String
norm_clip S.[] = S.[]
norm_clip (S.◌∷◌ c s) =
    let rest = norm_clip s in
    elim rest [
      | S.[] ↦ if code c == b'\n' then S.[] else S.◌∷◌ c S.[]
      | S.◌∷◌ d t ↦ S.◌∷◌ c (S.◌∷◌ d t)
    ]

pub record ClipboardBody : Type 0 where
  pub content : String
  pub timestamp : ℕ

-- The types of packets with a text.
pub data Kind : Type 0 where
  plain connect : Kind

-- `Handle` of a packet with this body, or one that does not decode, as far as the lock is held: the text
-- that is accepted, for which the goroutine is started.
unfoldable pub handle_clipboard :
    Kind → Option ClipboardBody → ℕ → Clipboard → Clipboard × Option String
handle_clipboard kind none now p = (p, none)
handle_clipboard kind (some body) now p =
    let taken : Clipboard = elim kind [
      | connect ↦ record p { local_changed_at = body.timestamp; last_content = body.content }
      | plain ↦ record p {
        last_timestamp = if ltb 0 body.timestamp then body.timestamp else p.last_timestamp;
        local_changed_at = now;
        last_content = body.content;
      }
    ] in
    let old : Bool = elim kind [
      | connect ↦ body.timestamp == 0 || ltb body.timestamp p.local_changed_at
      | plain ↦ ltb 0 body.timestamp && ltb body.timestamp p.last_timestamp
    ] in
    if not p.receiving || str_eq body.content "" || str_eq body.content p.last_content || old
    then (p, none)
    else (taken, some body.content)

-- What reading the desktop's clipboard gave.
pub data Reading : Type 0 where
  no_tool no_selection unreadable : Reading
  contents : String → Reading

-- What a push comes to.
pub data Pushed : Type 0 where
  nothing push_failed : Pushed
  sends : String → Pushed

unfoldable pub push : Reading → ℕ → Clipboard → Clipboard × Pushed
unfolding norm_clip
push r now p =
    let echo : String → Bool = λ c.
      str_eq (norm_clip c) (norm_clip p.last_content)
      || str_eq (norm_clip c) (norm_clip p.last_pushed_content) in
    let done : Clipboard × Pushed = elim r [
      | no_tool ↦ (p, push_failed)
      | no_selection ↦ (p, nothing)
      | unreadable ↦ (p, push_failed)
      | contents c ↦
          if str_eq c "" || echo c
          then (p, nothing)
          else (record p { last_pushed_content = c; local_changed_at = now }, sends c)
    ] in
    if p.sending then done else (p, nothing)

-- `OnConnect`: the text that is sent, with its timestamp. `""` is a clipboard with nothing to read.
unfoldable pub on_connect_clipboard : Bool → String → Clipboard → Clipboard × Option ClipboardBody
on_connect_clipboard push_on_connect content p =
    if not push_on_connect || not p.sending || str_eq content "" then (p, none) else (
      record p { last_pushed_content = content },
      some (record { content = content; timestamp = p.local_changed_at }),
    )

unfoldable pub new_clipboard : Clipboard
new_clipboard = record {
  receiving = true;
  sending = true;
  last_timestamp = 0;
  local_changed_at = 0;
  last_content = "";
  last_pushed_content = "";
}

-- The calls of the plugin, in the order in which they take the lock.
pub data Step : Type 0 where
  receives : Kind → Option ClipboardBody → ℕ → Step
  pushes : Reading → ℕ → Step
  connects : Bool → String → Step
  changes_policy : Bool → Bool → Step

-- The state after a step, and the text that it accepted.
unfoldable pub step : Step → Clipboard → Clipboard × Option String
unfolding handle_clipboard push on_connect_clipboard set_policy
step (receives kind body now) p = handle_clipboard kind body now p
step (pushes r now) p = ((push r now p).0, none)
step (connects push_on_connect content) p =
    ((on_connect_clipboard push_on_connect content p).0, none)
step (changes_policy receive send) p = (set_policy receive send p, none)

-- The plugin, the texts whose goroutines have still to copy them, and the text on the desktop.
pub record Desktop : Type 0 where
  pub plugin : Clipboard
  pub copying : List String
  pub selection : String

-- What a call accepts gets a goroutine.
unfoldable pub call : Step → Desktop → Desktop
unfolding step
call s d =
    let (p, accepted) = step s d.plugin in
    record d {
      plugin = p;
      copying = elim accepted [ none ↦ d.copying | some c ↦ d.copying ++ c ∷ [] ];
    }

unfoldable pub take_copy : ℕ → List String → Option (String × List String)
take_copy n [] = none
take_copy zero (c ∷ cs) = some (c, cs)
take_copy (suc n) (c ∷ cs) = elim (take_copy n cs) [ none ↦ none | some (d, ds) ↦ some (d, c ∷ ds) ]

-- The goroutine with this number among those that are left copies its text.
unfoldable pub copy : ℕ → Desktop → Desktop
unfolding take_copy
copy n d = elim (take_copy n d.copying) [
  | none ↦ d
  | some (c, rest) ↦ record d { copying = rest; selection = c }
]
