-- ===== src/Wire/Buffer.antt =====
-- The byte buffer of a connection, trantor::MsgBuffer, which is not part of the repository: its
-- readable bytes, a view of them, and the removal of bytes that were read.
use praas.Base.{ℕ, ◌≡◌, List, length, drop}

pub record MsgBuffer (B : Type 0) : Type 0 where
  pub readable_bytes : B → ℕ
  pub peek : B → List ℕ
  pub retrieve : ℕ → B → B

-- What its documentation says: a removal of more bytes than there are takes all of them.
pub record IsBuffer {B : Type 0} (m : MsgBuffer B) : Type 0 where
  pub readable : (b : B) → m.readable_bytes b ≡ length (m.peek b)
  pub retrieved : (n : ℕ) (b : B) → m.peek (m.retrieve n b) ≡ drop n (m.peek b)
