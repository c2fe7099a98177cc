-- ===== src/ThreadTimer.antt =====
-- CtrlrFx/os/generic/CtrlrFx/ThreadTimer.h and src/os/generic/ThreadTimer.cpp: a timer with a thread
-- of its own that calls a client. `K` is a client and `W` what the clients act on; `on_timer` is
-- virtual. Each call holds the lock of `cond_` throughout; `true` beside the timer that it leaves
-- says that it signals. The thread gives the lock up in its waits alone, and `run` is cut at its
-- tests and waits.
pub mod Threads
pub mod Signals
pub mod Ticks
mod Tests
use ctrlr_fx.Prelude.{Option, none, some, Bool, true, false, not, ◌&&◌, if◌then◌else◌, pos}
use ctrlr_fx.ClockTime.{TimeBase, add}
use ctrlr_fx.ClockTime.Duration.{equal}

pub record ThreadTimer (K : Type 0) : Type 0 where
  pub client_ : Option K
  pub init_delay : TimeBase
  pub period : TimeBase
  pub run_ : Bool
  pub quit_ : Bool

-- `Duration(0)`
abbrev pub no_time : TimeBase
no_time = record { tv_sec = pos 0; tv_nsec = pos 0 }

-- The constructor. The durations have their default constructor, which sets them to zero.
abbrev pub init : {K : Type 0} → K → ThreadTimer K
init client = record {
  client_ = some client;
  init_delay = no_time;
  period = no_time;
  run_ = false;
  quit_ = false;
}

abbrev pub register_client : {K : Type 0} → K → ThreadTimer K → ThreadTimer K × Bool
register_client client t = (record t { client_ = some client }, false)

abbrev pub do_start : {K : Type 0} → ThreadTimer K → ThreadTimer K × Bool
do_start t = if not t.run_ then (record t { run_ = true }, true) else (t, false)

-- `start()`, `start(period)` and `start(initDelay, period)`
abbrev pub start : {K : Type 0} → ThreadTimer K → ThreadTimer K × Bool
start t = do_start t

abbrev pub start_period : {K : Type 0} → TimeBase → ThreadTimer K → ThreadTimer K × Bool
start_period period t = do_start (record t { init_delay = period; period = period })

abbrev pub start_delay : {K : Type 0} → TimeBase → TimeBase → ThreadTimer K → ThreadTimer K × Bool
start_delay delay period t = do_start (record t { init_delay = delay; period = period })

abbrev pub stop : {K : Type 0} → ThreadTimer K → ThreadTimer K × Bool
stop t = (record t { run_ = false }, true)

abbrev pub one_shot : {K : Type 0} → TimeBase → ThreadTimer K → ThreadTimer K × Bool
one_shot timeout t =
    if not t.run_
    then (record t { init_delay = timeout; period = no_time; run_ = true }, true)
    else (t, false)

abbrev pub quit : {K : Type 0} → ThreadTimer K → ThreadTimer K × Bool
quit t = (record t { quit_ = true; run_ = false }, true)

-- Where the thread is in `run`: before it has the lock, at a loop's test, behind the idle loop, in
-- one of the waits, or at its end. The time is `t`.
pub data Place : Type 0 where
  starting : Place
  at_top : Place
  idle_test : Place
  begins : Place
  at_loop : TimeBase → Place
  idle_wait : Place
  delay_wait : TimeBase → Place
  period_wait : TimeBase → Place
  ended : Place

-- Where a thread goes on that has the lock again.
unfoldable pub resume : Place → Place
resume starting = at_top
resume at_top = at_top
resume idle_test = idle_test
resume begins = begins
resume (at_loop t) = at_loop t
resume idle_wait = idle_test
resume (delay_wait t) = at_loop t
resume (period_wait t) = at_loop t
resume ended = ended

module _ {K W : Type 0} (on_timer : K → W → W) where
  abbrev pub call_client : Option K → W → W
  call_client none w = w
  call_client (some client) w = on_timer client w

  -- `run` from one place to the next, with the time that the clock shows.
  unfoldable pub advance : TimeBase → Place → ThreadTimer K → W → Place × ThreadTimer K × W
  advance now starting t w = (starting, t, w)
  advance now at_top t w = ((if not t.quit_ then idle_test else ended), t, w)
  advance now idle_test t w =
      ((if not t.run_ && not t.quit_ then idle_wait else if t.quit_ then ended else begins), t, w)
  advance now begins t w = (
    (if not (equal t.init_delay no_time) then delay_wait (add now t.init_delay) else at_loop now),
    t,
    w,
  )
  advance now (at_loop deadline) t w =
      if t.run_ && not t.quit_
      then (if equal t.period no_time
          then (at_loop deadline, record t { run_ = false }, call_client t.client_ w)
          else (period_wait (add deadline t.period), t, call_client t.client_ w))
      else (at_top, t, w)
  advance now idle_wait t w = (idle_wait, t, w)
  advance now (delay_wait deadline) t w = (delay_wait deadline, t, w)
  advance now (period_wait deadline) t w = (period_wait deadline, t, w)
  advance now ended t w = (ended, t, w)
