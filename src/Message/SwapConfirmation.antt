-- ===== src/Message/SwapConfirmation.antt =====
-- SwapConfirmation of messages.hpp: a process reports the size of its swap.
use praas.Base.{ℕ, List}
use praas.Base.Int.{ℤ}
use praas.Message.Header.{header_offset, new_buffer}
use praas.Message.Header
use praas.Wire.Words.{get_int, put_int}

pub record SwapConfirmation : Type 0 where
  pub buf : List ℕ

unfoldable pub of_buffer : List ℕ → SwapConfirmation
of_buffer buf = record { buf = buf }

unfoldable pub fresh : SwapConfirmation
unfolding of_buffer
fresh = of_buffer (new_buffer Header.swap_confirmation)

unfoldable pub swap_size : SwapConfirmation → ℤ
swap_size m = get_int 4 header_offset m.buf

unfoldable pub set_swap_size : ℤ → SwapConfirmation → SwapConfirmation
set_swap_size size m = record m { buf = put_int 4 header_offset size m.buf }
