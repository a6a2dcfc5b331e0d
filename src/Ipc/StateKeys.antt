-- ===== src/Ipc/StateKeys.antt =====
-- StateKeysRequest and StateKeysResult of ipc/messages.hpp.
use praas.Base.{ℕ, List}
use praas.Base.Int.{ℤ}
use praas.Ipc.Header.{header_offset, new_buffer}
use praas.Ipc.Header
use praas.Wire.Words.{get_int, put_int}

pub record StateKeysResult : Type 0 where
  pub buf : List ℕ

unfoldable pub of_buffer : List ℕ → StateKeysResult
of_buffer buf = record { buf = buf }

unfoldable pub fresh : StateKeysResult
unfolding of_buffer
fresh = of_buffer (new_buffer Header.state_keys_result)

unfoldable pub buffer_length : StateKeysResult → ℤ
buffer_length m = get_int 4 header_offset m.buf

unfoldable pub set_buffer_length : ℤ → StateKeysResult → StateKeysResult
set_buffer_length len m = record m { buf = put_int 4 header_offset len m.buf }
