-- ===== src/Clipboard/Tests.antt =====
-- Runs of the clipboard plugin on small texts.
use kcd.Base.{◌≡◌, ◌≢◌, refl, true, none, some, List, [], ◌∷◌}
use kcd.Clipboard.{
  ClipboardBody, plain, connect, contents, handle_clipboard, push, nothing, norm_clip,
  new_clipboard, Desktop, call, copy, take_copy, Step, receives, pushes, connects, step,
}
use kcd.Clipboard.Echo.{run, Ascending, run-Ascending, push-handle_clipboard, handle_clipboard-push}

abbrev link : ClipboardBody
link = record { content = "link"; timestamp = 5 }

abbrev older : ClipboardBody
older = record { content = "older"; timestamp = 3 }

abbrev day : List Step
day =
    receives plain (some link) 10
    ∷ pushes (contents "note") 11
    ∷ receives plain (some older) 12
    ∷ connects true "note"
    ∷ receives connect (some older) 13
    ∷ []

day_copies : (run day new_clipboard).1 ≡ (receives plain (some link) 10, "link") ∷ []
unfolding step handle_clipboard push norm_clip new_clipboard
day_copies = refl

run-Ascending_example : Ascending new_clipboard.last_timestamp (run day new_clipboard).1
run-Ascending_example = run-Ascending day new_clipboard

push-handle_clipboard_example :
    (push
      (contents "link\n")
      13
      (run
        (pushes (contents "note") 11 ∷ [])
        (handle_clipboard plain (some link) 10 new_clipboard).0).0).1
    ≡ nothing
unfolding handle_clipboard norm_clip new_clipboard
push-handle_clipboard_example =
    push-handle_clipboard plain link 10 13 new_clipboard (pushes (contents "note") 11 ∷ []) "link\n"
      refl (λ x. x, tt) refl

handle_clipboard-push_example :
    let p1 = (handle_clipboard plain (some link) 10 new_clipboard).0 in
    let (p2, pushed) = push (contents "note") 11 p1 in
    ("note" ≢ link.content)
    × (handle_clipboard plain (some (record link { timestamp = 20 })) 21 p2 ≡ (p2, none))
unfolding handle_clipboard push norm_clip new_clipboard
handle_clipboard-push_example =
    handle_clipboard-push plain plain link 20 10 11 21 new_clipboard "note" refl refl

abbrev newer : ClipboardBody
newer = record { content = "newer"; timestamp = 9 }

-- Two texts are accepted in the order of their timestamps, and the older one is copied last.
older_stays :
    let d : Desktop = record { plugin = new_clipboard; copying = []; selection = "" } in
    let d1 = call (receives plain (some newer) 11) (call (receives plain (some link) 10) d) in
    (copy 0 (copy 1 d1)).selection ≡ "link"
unfolding call copy take_copy step handle_clipboard new_clipboard
older_stays = refl
