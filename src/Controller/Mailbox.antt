-- ===== src/Controller/Mailbox.antt =====
-- MessageStore of process/controller/src/messages.cpp: the messages that wait for a `get`, and the
-- process's state, in one map. A payload is the bytes of its buffer; a time stamp is the clock's
-- count of microseconds, an argument (the code divides it to seconds in a `double`).
pub mod Messages
pub mod State
use praas.Base.{
  ℕ, Bool, true, false, Option, none, some, List, [], ◌∷◌, ◌++◌, not, ◌&&◌, if◌then◌else◌,
}
use praas.Base.Text.{Text, codes, text_eq}
use praas.Base.Dict.{Dict, find, assign, erase}
use praas.Result.{Result, ok, undefined}

abbrev pub Payload : Type 0
Payload = List ℕ

-- The struct Message: who sent it, and its data. A state entry has the empty source.
pub record Message : Type 0 where
  pub source : Text
  pub payload : Payload

pub record MessageStore : Type 0 where
  pub msgs : Dict Message
  pub state_keys : Dict ℕ

abbrev pub any_process : Text
any_process = codes "ANY"

abbrev pub empty_store : MessageStore
empty_store = record { msgs = []; state_keys = [] }

-- `try_emplace`: an entry that is there stays.
unfoldable pub put : Text → Text → Payload → MessageStore → MessageStore × Bool
put key source payload s = elim (find key s.msgs) [
  | some _ ↦ (s, false)
  | none ↦
      (record s { msgs = assign key (record { source = source; payload = payload }) s.msgs }, true)
]

-- The time stamp of the first entry with the key; `none` where `find_if` returns `end()`.
unfoldable pub restamp : Text → ℕ → Dict ℕ → Option (Dict ℕ)
restamp key now [] = none
restamp key now ((k, t) ∷ keys) =
    let rest = restamp key now keys in
    if text_eq k key
    then some ((k, now) ∷ keys)
    else elim rest [ none ↦ none | some keys' ↦ some ((k, t) ∷ keys') ]

-- `insert_or_assign`, then the list of keys. The code writes through what `find_if` returns.
unfoldable pub state : Text → Payload → ℕ → MessageStore → Result MessageStore
unfolding restamp
state key payload now s =
    let msgs = assign key (record { source = []; payload = payload }) s.msgs in
    elim (find key s.msgs) [
      | none ↦ ok (record { msgs = msgs; state_keys = s.state_keys ++ (key, now) ∷ [] })
      | some _ ↦ elim (restamp key now s.state_keys) [
        | none ↦ undefined
        | some keys ↦ ok (record { msgs = msgs; state_keys = keys })
      ]
    ]

-- A message is handed out once, to who asks for its sender or for anybody's.
unfoldable pub try_get : Text → Text → MessageStore → MessageStore × Option Payload
try_get key source s = elim (find key s.msgs) [
  | none ↦ (s, none)
  | some m ↦
      if not (text_eq source any_process) && not (text_eq m.source source)
      then (s, none)
      else (record s { msgs = erase key s.msgs }, some m.payload)
]

-- A state entry is read in place.
unfoldable pub try_state : Text → MessageStore → Option Payload
try_state key s = elim (find key s.msgs) [ none ↦ none | some m ↦ some m.payload ]
