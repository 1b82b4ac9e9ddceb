-- ===== src/Delivery/Clock.antt =====
-- The time that vdp_wasm_fini of src/vdp_wasm.c finds to have passed since the task began.
use vmod_wasm.Base.{ℕ, ◌+◌, ◌-◌, ◌*◌, ◌<◌, ◌≤◌, arith}
use vmod_wasm.Delivery.{Timespec, elapsed_ms}

abbrev pub nanoseconds : Timespec → ℕ
nanoseconds t = t.tv_sec * 1000000000 + t.tv_nsec

-- The milliseconds differ from the nanoseconds that have passed by less than one millisecond, where the
-- second time is not before the first and the nanoseconds of both are below one second.
pub elapsed_ms-nanoseconds :
    (start end : Timespec)
    → start.tv_nsec < 1000000000
    → end.tv_nsec < 1000000000
    → nanoseconds start ≤ nanoseconds end
    → let passed = nanoseconds end - nanoseconds start in
      (elapsed_ms start end * 1000000 < passed + 1000000)
      × (passed < elapsed_ms start end * 1000000 + 1000000)
unfolding elapsed_ms
elapsed_ms-nanoseconds start end hs he h = ground arith
