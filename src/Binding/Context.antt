-- ===== src/Binding/Context.antt =====
-- python/zpq.py, class Zpq: calls in flight and `close`, on any number of threads. A block under the
-- condition's lock is one step, and so is each call into the library.
pub mod Safety
use zpq.Common.{ℕ, zero, suc, ◌+◌, ◌-◌, Bool, true, false, ◌||◌, ◌&&◌, List, [], ◌∷◌}
use zpq.Common.Tests.{◌==◌, ltb, if◌then◌else◌}
use zpq.Common.Threads.{put}

-- The fields that threads share: whether `_ctx` is set, `_closing` and `_inflight`; and what the library
-- has been told: how often the context was freed, and whether it was shut down.
pub record Shared : Type 0 where
  pub held : Bool
  pub closing : Bool
  pub inflight : ℕ
  pub frees : ℕ
  pub shut : Bool

-- Where a thread stands.
pub data Pc : Type 0 where
  away : Pc  -- in no call
  counted : Pc  -- run_raw: counted, before zpq_run
  running : Bool → Pc  -- inside zpq_run, with a context pointer or with None
  answered : Pc  -- zpq_run is over, before the `finally` block
  asleep : Pc  -- close: in cond.wait()
  awake : Pc  -- close: notified, before it holds the lock again
  taken : Bool → Pc  -- close: past its block, with what `_ctx` was

-- What a thread that is away does next.
pub data Call : Type 0 where
  run_raw close : Call

-- run_raw: its first block. A refused call raises ZpqClosed.
unfoldable pub enter : Shared → Shared × Pc
enter m = if m.closing then (m, away) else (record m { inflight = m.inflight + 1 }, counted)

-- run_raw: the `finally` block; the notification goes out with the last call.
unfoldable pub leave : Shared → Shared × Bool
leave m = (record m { inflight = m.inflight - 1 }, m.inflight - 1 == 0)

-- close: the test of its loop, under the lock.
unfoldable pub await : Shared → Shared × Pc
await m = if m.inflight == 0 then (record m { held = false }, taken m.held) else (m, asleep)

-- close: its block from the top.
unfoldable pub begin_close : Shared → Shared × Pc
unfolding await
begin_close m = await (record m { closing = true; shut = m.shut || m.held })

-- close: behind its block.
unfoldable pub free : Shared → Bool → Shared
free m owned = if owned then record m { frees = m.frees + 1 } else m

-- One step of one thread: the shared state, where it stands, and whether it notifies.
unfoldable pub advance : Call → Shared → Pc → Shared × Pc × Bool
unfolding enter leave await begin_close free
advance run_raw m away = let (m', p) = enter m in (m', p, false)
advance close m away = let (m', p) = begin_close m in (m', p, false)
advance _ m counted = (m, running m.held, false)
advance _ m (running given) = (m, answered, false)
advance _ m answered = let (m', last) = leave m in (m', away, last)
advance _ m asleep = (m, asleep, false)
advance _ m awake = let (m', p) = await m in (m', p, false)
advance _ m (taken owned) = (free m owned, away, false)

-- notify_all
unfoldable pub notify : Bool → Pc → Pc
notify true asleep = awake
notify _ p = p

pub record System : Type 0 where
  pub shared : Shared
  pub threads : ℕ → Pc

-- Thread `i` of `n` takes a step.
unfoldable pub step : ℕ → System → ℕ × Call → System
unfolding advance notify
step n s (i, call) =
    let (m, p, notifies) = advance call s.shared (s.threads i) in
    if ltb i n
    then record { shared = m; threads = λ j. notify notifies (put s.threads i p j) }
    else s

-- The steps of a schedule, in order.
unfoldable pub run : ℕ → System → List (ℕ × Call) → System
unfolding step
run n s [] = s
run n s (c ∷ schedule) = run n (step n s c) schedule

-- After __init__ with a context.
abbrev pub opened : System
opened = record {
  shared = record { held = true; closing = false; inflight = 0; frees = 0; shut = false };
  threads = λ _. away;
}
