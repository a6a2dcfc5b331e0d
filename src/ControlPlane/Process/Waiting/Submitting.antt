-- ===== src/ControlPlane/Process/Waiting/Submitting.antt =====
-- The connection of a process with waiting invocations.
use praas.Base.{ℕ, ◌≡◌, true, false, Option, some, List, [], ◌∷◌, ◌++◌, map, All}
use praas.ControlPlane.Process.{
  Process, Invocation, Effect, sent, allocated, is_allocating, CreationCallback,
}
use praas.ControlPlane.Process.Life.{connect}
use praas.ControlPlane.Process.Waiting.{IsWaiting, Told, sends, submitted, connect_lem}
use praas.ControlPlane.Process.Waiting.Announced.{Announces, IsClean, header-Announces}
use praas.Outcome.{done}

-- Each invocation is sent once, in order: a message that announces it, and its body.
pub data Submits (conn : ℕ) : List Invocation → List Effect → Type 0 where
  none_waits : Submits conn [] []
  next_one :
      {i : Invocation} {message : List ℕ} {is : List Invocation} {es : List Effect}
      → Announces i message
      → Submits conn is es
      → Submits conn (i ∷ is) (sent conn message ∷ sent conn i.body ∷ es)

sends-Submits : (conn : ℕ) (is : List Invocation) → All IsClean is → Submits conn is (sends conn is)
sends-Submits conn [] h = none_waits
sends-Submits conn (i ∷ is) (h, hs) = next_one (header-Announces i h) (sends-Submits conn is hs)

clean-IsWaiting :
    (is : List Invocation) → All (λ i. i.submitted ≡ false) is → All IsClean is → All IsWaiting is
clean-IsWaiting [] n c = tt
clean-IsWaiting (i ∷ is) (n, ns) ((hn, hi, small), cs) =
    ((n, (hn.0, small)), clean-IsWaiting is ns cs)

-- A process that allocates and of which every invocation waits; their functions' names are texts of at
-- most 32 bytes without a 0, their short ids have no 0, and their bodies have less than 2 GiB. The
-- connection submits each invocation once, in the order in which they came: a message that is read as
-- a request with its function, its short id and the size of its body, and the body. If the backend
-- has not reported yet, nobody is told anything; if the Docker backend has, the observer of the
-- allocation is told behind them that the process is created, and is forgotten.
pub connect-Submits :
    (conn : ℕ) (p : Process) (left : Option CreationCallback) (told : List Effect)
    → is_allocating p.status ≡ true
    → All (λ i. i.submitted ≡ false) p.invocations
    → All IsClean p.invocations
    → Told p left told
    → (out : List Effect) × (connect conn p
        ≡ done tt
            (record p {
              connection = some conn;
              status = allocated;
              invocations = map submitted p.invocations;
              creation_callback = left;
            })
            (out ++ told))
      × Submits conn p.invocations out
connect-Submits conn p left told a waits clean t = (
  sends conn p.invocations,
  connect_lem conn p left told a (clean-IsWaiting p.invocations waits clean) t,
  sends-Submits conn p.invocations clean,
)
