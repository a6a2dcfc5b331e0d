-- ===== src/Controller/Mailbox/Messages.antt =====
-- `put` and `try_get`.
use praas.Base.{◌≡◌, ◌≢◌, ◌⊎◌, ap, true, false, none, some, arith}
use praas.Base.Text.{Text, text_eq_iff}
use praas.Base.Dict.{find, assign, erase, find-assign_self, find-erase_self, find-erase-assign}
use praas.Controller.Mailbox.{Payload, Message, MessageStore, any_process, put, try_get}

handed_out :
    (key source asked : Text) (payload : Payload) (s : MessageStore)
    → find key s.msgs ≡ none
    → (asked ≡ source) ⊎ (asked ≡ any_process)
    → try_get key asked (put key source payload s).0 ≡ (
      record s {
        msgs = erase key (assign key (record { source = source; payload = payload }) s.msgs);
      },
      some payload,
    )
unfolding put try_get
handed_out key source asked payload s free who = ground (
  arith,
  find-assign_self key (record { source = source; payload = payload }) s.msgs,
  text_eq_iff asked any_process,
  text_eq_iff source asked,
)

-- What a `get` finds is what `put` stored: the message goes to who names its sender or "ANY", once,
-- and every other key's entry and the list of state keys are as they were before the `put`.
pub try_get-put :
    (key source asked : Text) (payload : Payload) (s : MessageStore)
    → find key s.msgs ≡ none
    → (asked ≡ source) ⊎ (asked ≡ any_process)
    → let got = try_get key asked (put key source payload s).0 in
      ((put key source payload s).1 ≡ true)
      × (got.1 ≡ some payload)
      × (got.0.state_keys ≡ s.state_keys)
      × ((try_get key asked got.0).1 ≡ none)
      × ((j : Text) → find j got.0.msgs ≡ find j s.msgs)
try_get-put key source asked payload s free who =
    let e = handed_out key source asked payload s free who in
    (
      unfold put in ground arith,
      ap (λ r. r.1) e,
      ap (λ r. r.0.state_keys) e,
      rw e (
          unfold try_get in
          ground (
            arith,
            find-erase_self key (assign key (record { source = source; payload = payload }) s.msgs),
          )),
      λ j. rw e (find-erase-assign key j _ s.msgs free),
    )

-- Any other asker gets nothing and changes nothing, and neither does a second `put`.
pub try_get-put_other :
    (key source asked : Text) (payload : Payload) (s : MessageStore)
    → find key s.msgs ≡ none
    → asked ≢ source
    → asked ≢ any_process
    → let s' = (put key source payload s).0 in
      (try_get key asked s' ≡ (s', none))
      × ((by : Text) (other : Payload) → put key by other s' ≡ (s', false))
unfolding put try_get
try_get-put_other key source asked payload s free not_source not_any =
    let m : Message = record { source = source; payload = payload } in
    ground (
      arith,
      find-assign_self key m s.msgs,
      text_eq_iff asked any_process,
      text_eq_iff source asked,
    )
