-- ===== src/Tests/Stores.antt =====
-- A mailbox with a message and a state entry, the workers that wait, and an application.
use praas.Base.{ℕ, ◌+◌, ◌≡◌, ◌≢◌, refl, ◌⊎◌, inr, true, false, none, some, List, [], ◌∷◌, ◌++◌}
use praas.Base.Text.{Text, codes, text_eq}
use praas.Base.Dict.{find}
use praas.Controller.Application.{Application, swapped, update}
use praas.Controller.Application.Processes.{Views, count, update_lem}
use praas.Controller.Mailbox.{Payload, MessageStore, any_process, put, state, try_get, try_state}
use praas.Controller.Mailbox.Messages.{try_get-put, try_get-put_other}
use praas.Controller.Mailbox.State.{state_lem, state-put_undefined, try_get-state}
use praas.Controller.Pending
use praas.Controller.Pending.{
  PendingMessage, PendingMessages, insert_get, answers, find_get, find_invocation,
}
use praas.Controller.Pending.Gets.{NoAnswer}
use praas.Controller.Pending.Results.{find_invocation_takes_gets}
use praas.Result.{ok, undefined}

abbrev letter : Text
letter = codes "k"

abbrev setting : Text
setting = codes "s"

abbrev other : Text
other = codes "o"

abbrev stranger : Text
stranger = codes "xy"

abbrev sender : Text
sender = codes "p"

abbrev bytes : Payload
bytes = 1 ∷ 2 ∷ []

abbrev store : MessageStore
store = record {
  msgs =
      (letter, record { source = sender; payload = bytes })
      ∷ (setting, record { source = []; payload = 3 ∷ [] })
      ∷ [];
  state_keys = (setting, 7) ∷ [];
}

try_get-put_example :
    let got = try_get other any_process (put other sender bytes store).0 in
    ((put other sender bytes store).1 ≡ true)
    × (got.1 ≡ some bytes)
    × (got.0.state_keys ≡ store.state_keys)
    × ((try_get other any_process got.0).1 ≡ none)
    × ((j : Text) → find j got.0.msgs ≡ find j store.msgs)
unfolding find text_eq
try_get-put_example = try_get-put other sender any_process bytes store refl (inr refl)

not_sender : stranger ≢ sender
not_sender e = cc

not_any : stranger ≢ any_process
not_any e = cc

try_get-put_other_example :
    let s' = (put other sender bytes store).0 in
    (try_get other stranger s' ≡ (s', none))
    × ((by : Text) (more : Payload) → put other by more s' ≡ (s', false))
unfolding find text_eq
try_get-put_other_example =
    try_get-put_other other sender stranger bytes store refl not_sender not_any

state_example :
    (s' : MessageStore) × (state setting bytes 9 store ≡ ok s')
    × (try_state setting s' ≡ some bytes)
    × (find setting s'.state_keys ≡ some 9)
    × ((j : Text)
        → (j ≡ setting)
          ⊎ ((find j s'.msgs ≡ find j store.msgs)
              × (find j s'.state_keys ≡ find j store.state_keys)))
unfolding find text_eq
state_example =
    state_lem setting bytes 9 store (inr (record { source = []; payload = 3 ∷ [] }, 7, refl, refl))

state-put_undefined_example : state other (3 ∷ []) 9 (put other sender bytes store).0 ≡ undefined
unfolding find text_eq
state-put_undefined_example = state-put_undefined other sender bytes (3 ∷ []) 9 store refl refl

try_get-state_example :
    (s' : MessageStore) × (state other bytes 9 store ≡ ok s')
    × ((try_get other any_process s').1 ≡ some bytes)
    × (try_state other (try_get other any_process s').0 ≡ none)
    × (find other (try_get other any_process s').0.state_keys ≡ some 9)
unfolding find text_eq
try_get-state_example = try_get-state other bytes 9 store refl refl

abbrev waits_for_letter : PendingMessage
waits_for_letter = record { key = letter; waiting = Pending.get; source = any_process; worker = 1 }

abbrev waits_for_result : PendingMessage
waits_for_result = record { key = setting; waiting = Pending.invocation; source = []; worker = 0 }

abbrev waiting : PendingMessages
waiting = waits_for_result ∷ waits_for_letter ∷ []

find_invocation_takes_gets_example :
    let found = find_invocation letter waiting in
    ((before : List ℕ) × (after : List ℕ) × (found.0 ≡ before ++ (1 ∷ after)))
    × NoAnswer letter sender found.1
find_invocation_takes_gets_example =
    find_invocation_takes_gets letter sender (waits_for_result ∷ []) [] waits_for_letter refl refl

abbrev known : Application
known = record { active_processes = other ∷ sender ∷ []; swapped_processes = [] }

update_example :
    Views swapped sender known (update swapped sender known)
    × ((k : Text)
        → count k (update swapped sender known).active_processes
            + count k (update swapped sender known).swapped_processes
          ≡ count k known.active_processes + count k known.swapped_processes)
update_example = update_lem swapped sender known
