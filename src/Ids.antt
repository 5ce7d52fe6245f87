-- ===== src/Ids.antt =====
-- The 64-bit counters behind `EventLoop::genId` (ks/KsEventLoop.cpp), `Object::genId`
-- (ks/KsObject.cpp) and `signal_detail::genId` (ks/KsSignal.cpp), which have one body. Each call
-- holds the counter's mutex from its first line to its last, so the calls of all threads are one
-- sequence; `Ids.Threads` shows that for the threads' single steps.
pub mod Sequence
pub mod Threads
pub mod Tests
use ks_core.Base.{ℕ, ◌+◌, ◌%◌, ◌^◌}

-- `Id` is `u64`.
abbrev pub id_mod : ℕ
id_mod = 2 ^ 64

-- The counters start at one, so that 0 can stand for an unset id.
abbrev pub first_id : ℕ
first_id = 1

-- The id that is handed out, and the counter after the call.
unfoldable pub gen_id : ℕ → ℕ × ℕ
gen_id counter = (counter, (counter + 1) % id_mod)
