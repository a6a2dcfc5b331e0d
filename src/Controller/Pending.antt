-- ===== src/Controller/Pending.antt =====
-- PendingMessages of process/controller/src/messages.cpp: the workers that wait for a message or for
-- the result of an invocation. The multimap is the list of its entries; entries of one key keep the
-- order of their insertion (the standard leaves that order open). A worker is its index.
pub mod Gets
pub mod Results
use praas.Base.{
  ℕ, Bool, true, false, Option, none, some, List, [], ◌∷◌, ◌++◌, ◌&&◌, ◌||◌, if◌then◌else◌,
}
use praas.Base.Text.{Text, text_eq}
use praas.Controller.Mailbox.{any_process}

pub data Waiting : Type 0 where
  get : Waiting
  invocation : Waiting

pub record PendingMessage : Type 0 where
  pub key : Text
  pub waiting : Waiting
  pub source : Text
  pub worker : ℕ

abbrev pub PendingMessages : Type 0
PendingMessages = List PendingMessage

unfoldable pub insert_get : Text → Text → ℕ → PendingMessages → PendingMessages
insert_get key source worker p =
    p ++ record { key = key; waiting = get; source = source; worker = worker } ∷ []

unfoldable pub insert_invocation : Text → ℕ → PendingMessages → PendingMessages
insert_invocation key worker p =
    p ++ record { key = key; waiting = invocation; source = []; worker = worker } ∷ []

unfoldable pub is_get : Waiting → Bool
is_get get = true
is_get invocation = false

-- The test of the loop in `find_get`, on an entry of the key's range.
unfoldable pub answers : Text → Text → PendingMessage → Bool
unfolding is_get
answers key source e =
    text_eq e.key key
    && ((text_eq e.source any_process || text_eq e.source source) && is_get e.waiting)

-- The first worker that waits for the message, taken off the map.
unfoldable pub find_get : Text → Text → PendingMessages → Option ℕ × PendingMessages
find_get key source [] = (none, [])
find_get key source (e ∷ p) =
    let rest = find_get key source p in
    if answers key source e then (some e.worker, p) else (rest.0, e ∷ rest.1)

-- The loop of `find_invocation` over the key's range, which reads no type, and the `erase` of it.
unfoldable pub find_invocation : Text → PendingMessages → List ℕ × PendingMessages
find_invocation key [] = ([], [])
find_invocation key (e ∷ p) =
    let rest = find_invocation key p in
    if text_eq e.key key then (e.worker ∷ rest.0, rest.1) else (rest.0, e ∷ rest.1)
