-- ===== src/Ipc/Tests.antt =====
-- Questions and answers, one after the other and at once.
use kcd.Base.{ℕ, ◌++◌, arith, ◌≡◌, refl, true, List, [], ◌∷◌, All}
use kcd.Events.{Event, Bus, publishes, make_event, matches_filters, is_opt_in_only}
use kcd.Ipc.Watch.{watch}
use kcd.Ipc.Watch.Twice.{watch-publishes}
use kcd.Ipc.Prompts.{
  Prompt, new_prompt_manager, ask, offer, take_choice, give_up, forget, is_option, Step, asks,
  takes, gives_up, forgets, offers, step, run,
}
use kcd.Ipc.Prompts.Answers.{IsAnswer, run-new_prompt_manager_sound}

abbrev question : Prompt
question = record {
  prompt_id = "p1";
  device_id = "phone";
  kind = "pair";
  summary = "Pair?";
  options = "yes" ∷ "no" ∷ [];
  fallback = "no";
  expires_at = 30;
}

-- Two questions with one id: the choice for the first comes after its timer.
abbrev crossed : List Step
crossed =
    asks question true
    ∷ asks question true
    ∷ gives_up 0
    ∷ offers 0 "yes"
    ∷ forgets 0
    ∷ offers 1 "yes"
    ∷ takes 1
    ∷ []

two_questions : (run crossed new_prompt_manager).1 ≡ (question, "no") ∷ (question, "yes") ∷ []
unfolding run step ask offer take_choice give_up forget is_option new_prompt_manager
two_questions = refl

run-new_prompt_manager_sound_example : All IsAnswer (run crossed new_prompt_manager).1
run-new_prompt_manager_sound_example = run-new_prompt_manager_sound crossed

yes_option : is_option "yes" question.options ≡ true
unfolding is_option
yes_option = refl

-- A bus that has published five events.
abbrev busy : Bus ℕ ℕ
busy = record { subscribers = []; next_id = 0; change_hooks = []; seq = 5; ring = [] }

watch-publishes_example :
    (earlier : List (Event ℕ)) × ((watch 4 []
        (publishes "device.connected" "phone" 1 9 ∷ [])
        []
        busy).0
      ≡ earlier
        ++ make_event "device.connected" "phone" 1 9 busy
          ∷ make_event "device.connected" "phone" 1 9 busy
          ∷ [])
unfolding matches_filters is_opt_in_only
watch-publishes_example =
    watch-publishes 4 [] "device.connected" "phone" 1 9 busy (omega arith) (omega arith)
      (omega arith) refl refl
