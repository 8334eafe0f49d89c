-- ===== src/Clipboard/Echo.antt =====
-- handle.go and push.go: what is sent back, what is taken again, and in which order of time.
use kcd.Base.{
  ℕ, ◌≤◌, ◌≡◌, ◌≢◌, ◌⊎◌, subst, sym, ap, ◌∙◌, refl, inl, inr, String, true, false, Option, none,
  some, List, [], ◌∷◌, arith, ◌==◌, if◌then◌else◌, str_eq, str_eq_iff,
}
use kcd.Clipboard.{
  Clipboard, norm_clip, ClipboardBody, Kind, plain, connect, handle_clipboard, Reading, contents,
  nothing, sends, push, on_connect_clipboard, set_policy, Step, receives, pushes, connects,
  changes_policy, step,
}

abbrev noted : Step → Option String → List (Step × String) → List (Step × String)
noted s none rest = rest
noted s (some c) rest = (s, c) ∷ rest

-- The texts that were accepted, with their steps.
abbrev pub run : List Step → Clipboard → Clipboard × List (Step × String)
run [] p = (p, [])
run (s ∷ ss) p =
    let (p1, copied) = step s p in let (p2, rest) = run ss p1 in (p2, noted s copied rest)

-- The timestamp that a step hands in for an ordinary text, if it has one.
abbrev pub stamp : Step → ℕ
stamp (receives plain (some body) now) = body.timestamp
stamp (receives plain none now) = 0
stamp (receives connect body now) = 0
stamp (pushes r now) = 0
stamp (connects b c) = 0
stamp (changes_policy r s) = 0

-- Each timestamp is 0 or no less than the ones before, of which `low` is the greatest.
abbrev pub Ascending : ℕ → List (Step × String) → Type 0
Ascending low [] = Unit
Ascending low ((s, c) ∷ rest) =
    if stamp s == 0 then Ascending low rest else ((low ≤ stamp s) × Ascending (stamp s) rest)

-- The pushes leave the timestamp, and what was received, alone.
last-pushed :
    (r : Reading) (now : ℕ) (p : Clipboard) → (push r now p).0.last_timestamp ≡ p.last_timestamp
unfolding push
last-pushed r now p = ground arith

stays :
    (s : Step) (p : Clipboard)
    → (step s p).1 ≡ none
    → (step s p).0.last_timestamp ≡ p.last_timestamp
unfolding step handle_clipboard on_connect_clipboard set_policy
stays (receives kind none now) p h = refl
stays (receives plain (some body) now) p h = ground (arith, h)
stays (receives connect (some body) now) p h = ground (arith, h)
stays (pushes r now) p h = last-pushed r now p
stays (connects b c) p h = ground arith
stays (changes_policy r s) p h = refl

moves :
    (s : Step) (p : Clipboard) (c : String)
    → (step s p).1 ≡ some c
    → ((stamp s ≡ 0) × ((step s p).0.last_timestamp ≡ p.last_timestamp))
      ⊎ ((stamp s ≢ 0) × (p.last_timestamp ≤ stamp s) × ((step s p).0.last_timestamp ≡ stamp s))
unfolding step handle_clipboard
moves (receives kind none now) p c h = ground (arith, h)
moves (receives plain (some body) now) p c h = ground (arith, h)
moves (receives connect (some body) now) p c h = ground (arith, h)
moves (pushes r now) p c h = ground (arith, h)
moves (connects b t) p c h = ground (arith, h)
moves (changes_policy r s) p c h = ground (arith, h)

noted-Ascending :
    (s : Step) (p : Clipboard) (copied : Option String) (rest : List (Step × String))
    → (step s p).1 ≡ copied
    → Ascending (step s p).0.last_timestamp rest
    → Ascending p.last_timestamp (noted s copied rest)
noted-Ascending s p none rest e h = subst (λ t. Ascending t rest) (stays s p e) h
noted-Ascending s p (some c) rest e h = elim (moves s p c e) [
  | inl (z, f) ↦
      let z' : (stamp s == 0) ≡ true = ground (arith, z) in
      rw z' (subst (λ t. Ascending t rest) f h)
  | inr (z, l, f) ↦
      let z' : (stamp s == 0) ≡ false = ground (arith, z) in
      rw z' ((l, subst (λ t. Ascending t rest) f h))
]

-- In any run of the plugin, the timestamps of the ordinary texts that are accepted, where they have one,
-- do not go back, nor behind the last one from before the run. Texts without a timestamp, and those of
-- a new connection, are not meant, nor the order in which the accepted texts reach the desktop.
pub run-Ascending : (ss : List Step) (p : Clipboard) → Ascending p.last_timestamp (run ss p).1
run-Ascending [] p = tt
run-Ascending (s ∷ ss) p =
    noted-Ascending s p (step s p).1 (run ss (step s p).0).1 refl (run-Ascending ss (step s p).0)

-- Pushes alone leave what was received last as it is.
last_content-push :
    (r : Reading) (now : ℕ) (p : Clipboard) → (push r now p).0.last_content ≡ p.last_content
unfolding push
last_content-push r now p = ground arith

abbrev pub Received : Step → Type 0
Received (receives k b n) = Unit
Received (pushes r n) = ⊥
Received (connects b c) = ⊥
Received (changes_policy r s) = ⊥

-- Nothing was received in these steps.
abbrev pub Silent : List Step → Type 0
Silent [] = Unit
Silent (s ∷ ss) = (Received s → ⊥) × Silent ss

last_content-run :
    (ss : List Step) (p : Clipboard) → Silent ss → (run ss p).0.last_content ≡ p.last_content
unfolding step on_connect_clipboard set_policy
last_content-run [] p h = refl
last_content-run (receives k b n ∷ ss) p (h, hs) = absurd (h tt)
last_content-run (pushes r n ∷ ss) p (h, hs) =
    last_content-run ss (step (pushes r n) p).0 hs ∙ last_content-push r n p
last_content-run (connects b c ∷ ss) p (h, hs) =
    last_content-run ss (step (connects b c) p).0 hs ∙ ground arith
last_content-run (changes_policy r s ∷ ss) p (h, hs) =
    last_content-run ss (step (changes_policy r s) p).0 hs

last_content-handle_clipboard :
    (kind : Kind) (body : ClipboardBody) (now : ℕ) (p : Clipboard) (c : String)
    → (handle_clipboard kind (some body) now p).1 ≡ some c
    → ((handle_clipboard kind (some body) now p).0.last_content ≡ c) × (c ≡ body.content)
unfolding handle_clipboard
last_content-handle_clipboard plain body now p c h = ground (arith, h)
last_content-handle_clipboard connect body now p c h = ground (arith, h)

-- No push sends back what a phone sent. Where a text from the phone was accepted, and after that any
-- pushes, connections and changes of the policy took place but nothing was received, a push of the
-- same text, whatever line feeds a tool has put at its end or taken off it, sends nothing.
pub push-handle_clipboard :
    (kind : Kind) (body : ClipboardBody) (now later : ℕ) (p : Clipboard) (ss : List Step)
    (text : String)
    → (handle_clipboard kind (some body) now p).1 ≡ some body.content
    → Silent ss
    → norm_clip text ≡ norm_clip body.content
    → (push (contents text) later (run ss (handle_clipboard kind (some body) now p).0).0).1
      ≡ nothing
unfolding push
push-handle_clipboard kind body now later p ss text h silent same =
    let p1 : Clipboard = (handle_clipboard kind (some body) now p).0 in
    let e = last_content-run ss p1 silent in
    let (f, g) = last_content-handle_clipboard kind body now p body.content h in
    let k : norm_clip text ≡ norm_clip (run ss p1).0.last_content =
      same ∙ sym (ap norm_clip (e ∙ f)) in
    ground (arith, k, str_eq_iff (norm_clip text) (norm_clip (run ss p1).0.last_content))

sent-push :
    (text : String) (now : ℕ) (p : Clipboard)
    → (push (contents text) now p).1 ≡ sends text
    → (str_eq text "" ≡ false) × (str_eq (norm_clip text) (norm_clip p.last_content) ≡ false)
unfolding push
sent-push text now p h = ground (arith, h)

handle_clipboard_known :
    (kind : Kind) (body : ClipboardBody) (now : ℕ) (p : Clipboard)
    → p.last_content ≡ body.content
    → handle_clipboard kind (some body) now p ≡ (p, none)
unfolding handle_clipboard
handle_clipboard_known kind body now p h = ground (arith, h, str_eq_iff body.content p.last_content)

-- A text that the phone copies again is lost. Where the phone's text was accepted and the desktop's own
-- text then sent to it, the phone's text is not taken a second time, of whatever type and however new
-- the packet is: the state does not change and nothing is accepted, so that the desktop keeps its own
-- text, which is another one, and the phone has the first.
pub handle_clipboard-push :
    (kind kind' : Kind) (body : ClipboardBody) (ts n1 n2 n3 : ℕ) (p : Clipboard) (text : String)
    → (handle_clipboard kind (some body) n1 p).1 ≡ some body.content
    → let p1 = (handle_clipboard kind (some body) n1 p).0 in
      let (p2, pushed) = push (contents text) n2 p1 in
      pushed ≡ sends text
      → (text ≢ body.content)
        × (handle_clipboard kind' (some (record body { timestamp = ts })) n3 p2 ≡ (p2, none))
handle_clipboard-push kind kind' body ts n1 n2 n3 p text h sent =
    let p1 : Clipboard = (handle_clipboard kind (some body) n1 p).0 in
    let (f, g) = last_content-handle_clipboard kind body n1 p body.content h in
    let (a, b) = sent-push text n2 p1 sent in
    let e = last_content-push (contents text) n2 p1 in
    (
      λ k.
          let s : norm_clip text ≡ norm_clip p1.last_content = ap norm_clip (k ∙ sym f) in
          ground (arith, b, s, str_eq_iff (norm_clip text) (norm_clip p1.last_content)),
      handle_clipboard_known kind' (record body { timestamp = ts }) n3
          (push (contents text) n2 p1).0 (e ∙ f),
    )
