-- ===== src/Message/DataPlaneMetrics.antt =====
-- DataPlaneMetrics of messages.hpp: what a process reports to the control plane.
use praas.Base.{ℕ, ◌+◌, List, if◌then◌else◌}
use praas.Base.Int.{ℤ, is_negative}
use praas.Message.Header.{header_offset, new_buffer}
use praas.Message.Header
use praas.Result.{Result, ok, err, invalid_argument}
use praas.Wire.Words.{get_int, put_int, get_u64, put_u64}

pub record DataPlaneMetrics : Type 0 where
  pub buf : List ℕ

unfoldable pub of_buffer : List ℕ → DataPlaneMetrics
of_buffer buf = record { buf = buf }

unfoldable pub fresh : DataPlaneMetrics
unfolding of_buffer
fresh = of_buffer (new_buffer Header.dataplane_metrics)

unfoldable pub invocations : DataPlaneMetrics → ℤ
invocations m = get_int 4 header_offset m.buf

unfoldable pub set_invocations : ℤ → DataPlaneMetrics → Result DataPlaneMetrics
set_invocations n m =
    if is_negative n
    then err invalid_argument
    else ok (record m { buf = put_int 4 header_offset n m.buf })

unfoldable pub last_invocation_timestamp : DataPlaneMetrics → ℕ
last_invocation_timestamp m = get_u64 (header_offset + 8) m.buf

unfoldable pub set_last_invocation_timestamp : ℕ → DataPlaneMetrics → DataPlaneMetrics
set_last_invocation_timestamp t m = record m { buf = put_u64 (header_offset + 8) t m.buf }

unfoldable pub computation_time : DataPlaneMetrics → ℤ
computation_time m = get_int 4 (header_offset + 4) m.buf

unfoldable pub set_computation_time : ℤ → DataPlaneMetrics → Result DataPlaneMetrics
set_computation_time time m =
    if is_negative time
    then err invalid_argument
    else ok (record m { buf = put_int 4 (header_offset + 4) time m.buf })
