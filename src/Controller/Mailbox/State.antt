-- ===== src/Controller/Mailbox/State.antt =====
-- `state`, `try_state` and the list of state keys.
use praas.Base.{
  ℕ, ◌≡◌, ◌≢◌, ◌⊎◌, ◌↔◌, inl, inr, ap, false, none, some, List, [], ◌∷◌, ◌++◌, map, arith,
  Option-cases, Bool-cases,
}
use praas.Base.Text.{Text, text_eq, text_eq_iff, text_eq_refl}
use praas.Base.Dict.{
  Dict, find, assign, erase, find-assign, find-assign_self, find-erase_self, find-append,
  find-append_ne,
}
use praas.Controller.Mailbox.{
  Payload, Message, MessageStore, any_process, put, state, restamp, try_get, try_state,
}
use praas.Result.{ok, undefined}

abbrev pub keys_of : Dict ℕ → List Text
keys_of = map λ e. e.0

restamp-none :
    (key : Text) (now : ℕ) (keys : Dict ℕ) → (restamp key now keys ≡ none) ↔ (find key keys ≡ none)
unfolding restamp find
restamp-none key now [] = ground arith
restamp-none key now ((k, t) ∷ keys) = ground (arith, restamp-none key now keys)

-- A new time stamp, and the same keys in the same order.
restamp_keys :
    (key : Text) (now : ℕ) (keys : Dict ℕ) {keys' : Dict ℕ}
    → restamp key now keys ≡ some keys'
    → (keys_of keys' ≡ keys_of keys) × (find key keys' ≡ some now)
unfolding restamp find
restamp_keys key now [] e = cc
restamp_keys key now ((k, t) ∷ keys) e = elim (Option-cases (restamp key now keys)) [
  | inl last ↦ ground arith
  | inr (rest, more) ↦ ground (arith, restamp_keys key now keys more)
]

restamp_other :
    (key j : Text) (now : ℕ) (keys : Dict ℕ) {keys' : Dict ℕ}
    → restamp key now keys ≡ some keys'
    → text_eq key j ≡ false
    → find j keys' ≡ find j keys
unfolding restamp find
restamp_other key j now [] e h = cc
restamp_other key j now ((k, t) ∷ keys) e h = elim (Option-cases (restamp key now keys)) [
  | inl last ↦ ground (arith, text_eq_iff k key, text_eq_iff k j, text_eq_iff key j)
  | inr (rest, more) ↦ ground (
    arith,
    text_eq_iff k key,
    text_eq_iff k j,
    text_eq_iff key j,
    restamp_other key j now keys more h,
  )
]

module _ (key : Text) (payload : Payload) (now : ℕ) (s : MessageStore) where
  stored : Dict Message
  stored = assign key (record { source = []; payload = payload }) s.msgs

  -- What a successful `state` leaves behind, the new list of keys apart.
  Stores : Type 0
  Stores =
      (s' : MessageStore) × (state key payload now s ≡ ok s')
      × (try_state key s' ≡ some payload)
      × (find key s'.state_keys ≡ some now)
      × ((j : Text) → j ≢ key → find j s'.msgs ≡ find j s.msgs)
      × ((j : Text) → j ≢ key → find j s'.state_keys ≡ find j s.state_keys)

  stores :
      (keys : Dict ℕ)
      → state key payload now s ≡ ok (record { msgs = stored; state_keys = keys })
      → find key keys ≡ some now
      → ((j : Text) → j ≢ key → find j keys ≡ find j s.state_keys)
      → Stores
  unfolding Stores stored try_state
  stores keys e new others = (
    record { msgs = stored; state_keys = keys },
    e,
    ground (arith, find-assign_self key (record { source = []; payload = payload }) s.msgs),
    new,
    λ j ne. ground (
      arith,
      find-assign key j (record { source = []; payload = payload }) s.msgs,
      text_eq_iff key j,
    ),
    others,
  )

stored_under :
    (key : Text) (payload : Payload) (now : ℕ) (s : MessageStore)
    → ((find key s.msgs ≡ none) × (find key s.state_keys ≡ none))
      ⊎ ((m : Message) × (t : ℕ) × (find key s.msgs ≡ some m) × (find key s.state_keys ≡ some t))
    → (s' : MessageStore) × (state key payload now s ≡ ok s')
      × (try_state key s' ≡ some payload)
      × (find key s'.state_keys ≡ some now)
      × ((j : Text) → j ≢ key → find j s'.msgs ≡ find j s.msgs)
      × ((j : Text) → j ≢ key → find j s'.state_keys ≡ find j s.state_keys)
unfolding Stores stored
stored_under key payload now s (inl (free, fresh)) =
    stores key payload now s (s.state_keys ++ (key, now) ∷ []) (unfold state in ground arith)
      (ground (arith, find-append key key now s.state_keys, text_eq_refl key))
      (λ j ne. find-append_ne key j now s.state_keys (ground (arith, text_eq_iff key j)))
stored_under key payload now s (inr (m, t, held, listed)) =
    elim (Option-cases (restamp key now s.state_keys)) [
      | inl missing ↦ absurd (ground (arith, restamp-none key now s.state_keys))
      | inr (keys, e) ↦
          stores key payload now s keys (unfold state in ground arith)
            (restamp_keys key now s.state_keys e).1
            (λ j ne. restamp_other key j now s.state_keys e (ground (arith, text_eq_iff key j)))
    ]

-- `state` stores under a key that is free or listed: the entry can be read at once, its key is listed
-- with the new time stamp, and every other entry and other key's time stamp stay.
pub state_lem :
    (key : Text) (payload : Payload) (now : ℕ) (s : MessageStore)
    → ((find key s.msgs ≡ none) × (find key s.state_keys ≡ none))
      ⊎ ((m : Message) × (t : ℕ) × (find key s.msgs ≡ some m) × (find key s.state_keys ≡ some t))
    → (s' : MessageStore) × (state key payload now s ≡ ok s')
      × (try_state key s' ≡ some payload)
      × (find key s'.state_keys ≡ some now)
      × ((j : Text)
          → (j ≡ key)
            ⊎ ((find j s'.msgs ≡ find j s.msgs) × (find j s'.state_keys ≡ find j s.state_keys)))
state_lem key payload now s known =
    let (s', e, read, listed, entries, stamps) = stored_under key payload now s known in
    (
      s',
      e,
      read,
      listed,
      λ j. elim (Bool-cases (text_eq j key)) [
        | inl same ↦ inl ((text_eq_iff j key).0 same)
        | inr other ↦ inr (entries j (differs other), stamps j (differs other))
      ],
    )
  where
    differs : {j : Text} → text_eq j key ≡ false → j ≢ key
    differs {j} other same = absurd (ground (arith, text_eq_iff j key, other, same))

-- `state` writes through the end iterator, undefined behaviour, exactly when the key is taken by an
-- entry that the list of state keys lacks.
pub state-undefined :
    (key : Text) (payload : Payload) (now : ℕ) (s : MessageStore)
    → (state key payload now s ≡ undefined)
      ↔ ((find key s.msgs ≢ none) × (find key s.state_keys ≡ none))
unfolding state
state-undefined key payload now s = ground (arith, restamp-none key now s.state_keys)

-- A message that waits in the mailbox is such an entry: storing state under the key of a message
-- that was put and not yet taken is undefined, unless state was stored under the key before.
pub state-put_undefined :
    (key source : Text) (payload value : Payload) (now : ℕ) (s : MessageStore)
    → find key s.msgs ≡ none
    → find key s.state_keys ≡ none
    → state key value now (put key source payload s).0 ≡ undefined
state-put_undefined key source payload value now s free fresh =
    (state-undefined key value now _).1 (taken, unfold put in ground arith)
  where
    taken : find key (put key source payload s).0.msgs ≢ none
    taken =
        unfold put in
        ground (arith, find-assign_self key (record { source = source; payload = payload }) s.msgs)

-- A `get` from anybody takes a state entry away like a message, and leaves its key in the list.
pub try_get-state :
    (key : Text) (payload : Payload) (now : ℕ) (s : MessageStore)
    → find key s.msgs ≡ none
    → find key s.state_keys ≡ none
    → (s' : MessageStore) × (state key payload now s ≡ ok s')
      × ((try_get key any_process s').1 ≡ some payload)
      × (try_state key (try_get key any_process s').0 ≡ none)
      × (find key (try_get key any_process s').0.state_keys ≡ some now)
try_get-state key payload now s free fresh = (
  record { msgs = stored; state_keys = s.state_keys ++ (key, now) ∷ [] },
  unfold state in ground arith,
  ap (λ r. r.1) taken,
  rw taken (unfold try_state in ground (arith, find-erase_self key stored)),
  rw taken (ground (arith, find-append key key now s.state_keys, text_eq_refl key)),
)
  where
    stored : Dict Message
    stored = assign key (record { source = []; payload = payload }) s.msgs

    taken :
        try_get key any_process
          (record { msgs = stored; state_keys = s.state_keys ++ (key, now) ∷ [] })
        ≡ (
          record { msgs = erase key stored; state_keys = s.state_keys ++ (key, now) ∷ [] },
          some payload,
        )
    taken =
        unfold try_get in
        ground (
          arith,
          find-assign_self key (record { source = []; payload = payload }) s.msgs,
          text_eq_refl any_process,
        )
