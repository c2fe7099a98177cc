-- ===== src/ThreadTimer/Signals.antt =====
-- ThreadTimer.cpp: what the thread of a timer has to do when it is not asleep, and that its callers
-- wake it.
use ctrlr_fx.Prelude.{◌≡◌, refl, Bool, true, false, not, ◌&&◌, if◌then◌else◌, arith}
use ctrlr_fx.ClockTime.{TimeBase, add}
use ctrlr_fx.ClockTime.Duration.{equal}
use ctrlr_fx.ThreadTimer.{
  ThreadTimer, Place, starting, at_top, idle_test, begins, at_loop, idle_wait, delay_wait,
  period_wait, ended, no_time, resume, advance,
}
use ctrlr_fx.ThreadTimer.Threads.{
  System, waits, is_idle, apart, Call, register_call, start_call, start_period_call,
  start_delay_call, stop_call, one_shot_call, quit_call, call, own, Step, calls, runs, rouses,
  wakes, enters, Reach, here, next, new_timer,
}

-- What the flags are where a thread sleeps, and behind the idle loop has.
unfoldable pub Justified : {K : Type 0} → Place → ThreadTimer K → Bool → Type 0
Justified starting t awake = awake ≡ false
Justified at_top t awake = awake ≡ false
Justified idle_test t awake = awake ≡ false
Justified begins t awake = (t.run_ ≡ true) × (t.quit_ ≡ false)
Justified (at_loop d) t awake = awake ≡ false
Justified idle_wait t awake = awake ≡ false → (t.run_ ≡ false) × (t.quit_ ≡ false)
Justified (delay_wait d) t awake = awake ≡ false → (t.run_ ≡ true) × (t.quit_ ≡ false)
Justified (period_wait d) t awake = awake ≡ false → (t.run_ ≡ true) × (t.quit_ ≡ false)
Justified ended t awake = t.quit_ ≡ true

call-quiet :
    {K : Type 0} (c : Call K) (t : ThreadTimer K)
    → (call c t).1 ≡ false
    → ((call c t).0.run_ ≡ t.run_) × ((call c t).0.quit_ ≡ t.quit_)
unfolding call
call-quiet (register_call client) t h = (refl, refl)
call-quiet start_call t h = ground (arith, h)
call-quiet (start_period_call period) t h = ground (arith, h)
call-quiet (start_delay_call delay period) t h = ground (arith, h)
call-quiet stop_call t h = ground (arith, h)
call-quiet (one_shot_call timeout) t h = ground (arith, h)
call-quiet quit_call t h = ground (arith, h)

call-quit_ :
    {K : Type 0} (c : Call K) (t : ThreadTimer K) → t.quit_ ≡ true → (call c t).0.quit_ ≡ true
unfolding call
call-quit_ (register_call client) t h = h
call-quit_ start_call t h = ground (arith, h)
call-quit_ (start_period_call period) t h = ground (arith, h)
call-quit_ (start_delay_call delay period) t h = ground (arith, h)
call-quit_ stop_call t h = h
call-quit_ (one_shot_call timeout) t h = ground (arith, h)
call-quit_ quit_call t h = refl

call-Justified :
    {K : Type 0} (c : Call K) (p : Place) (t : ThreadTimer K) (awake : Bool)
    → Justified p t awake
    → apart p ≡ true
    → Justified p (call c t).0 (if (call c t).1 then waits p else awake)
unfolding Justified waits apart
call-Justified c starting t awake j h = ground (arith, j)
call-Justified c at_top t awake j h = ground (arith, h)
call-Justified c idle_test t awake j h = ground (arith, h)
call-Justified c begins t awake j h = ground (arith, h)
call-Justified c (at_loop d) t awake j h = ground (arith, h)
call-Justified c idle_wait t awake j h = λ e. ground (arith, e, j, call-quiet c t)
call-Justified c (delay_wait d) t awake j h = λ e. ground (arith, e, j, call-quiet c t)
call-Justified c (period_wait d) t awake j h = λ e. ground (arith, e, j, call-quiet c t)
call-Justified c ended t awake j h = call-quit_ c t j

-- Behind each test, for what it found.
after_top :
    {K : Type 0} (q : Bool) (t : ThreadTimer K)
    → t.quit_ ≡ q
    → Justified (if not q then idle_test else ended) t false
unfolding Justified
after_top true t e = e
after_top false t e = refl

after_idle :
    {K : Type 0} (r q : Bool) (t : ThreadTimer K)
    → t.run_ ≡ r
    → t.quit_ ≡ q
    → Justified (if not r && not q then idle_wait else if q then ended else begins) t false
unfolding Justified
after_idle true true t e h = h
after_idle true false t e h = (e, h)
after_idle false true t e h = h
after_idle false false t e h = λ k. (e, h)

after_begin :
    {K : Type 0} (now : TimeBase) (z : Bool) (t : ThreadTimer K)
    → t.run_ ≡ true
    → t.quit_ ≡ false
    → Justified (if not z then delay_wait (add now t.init_delay) else at_loop now) t false
unfolding Justified
after_begin now true t e h = refl
after_begin now false t e h = λ k. (e, h)

abbrev at_test :
    {K W : Type 0}
    → TimeBase
    → Bool
    → Bool
    → Bool
    → ThreadTimer K
    → W
    → W
    → Place × ThreadTimer K × W
at_test d r q z t w w' =
    if r && not q
    then (if z
        then (at_loop d, record t { run_ = false }, w')
        else (period_wait (add d t.period), t, w'))
    else (at_top, t, w)

after_loop :
    {K W : Type 0} (d : TimeBase) (r q z : Bool) (t : ThreadTimer K) (w w' : W)
    → t.run_ ≡ r
    → t.quit_ ≡ q
    → Justified (at_test d r q z t w w').0 (at_test d r q z t w w').1 false
unfolding Justified
after_loop d true true z t w w' e h = refl
after_loop d true false true t w w' e h = refl
after_loop d true false false t w w' e h = λ k. (e, h)
after_loop d false q z t w w' e h = refl

advance-Justified :
    {K W : Type 0} (on_timer : K → W → W) (now : TimeBase) (p : Place) (t : ThreadTimer K) (w : W)
    → Justified p t false
    → apart p ≡ false
    → Justified (advance on_timer now p t w).0 (advance on_timer now p t w).1 false
unfolding Justified advance apart
advance-Justified f now starting t w j h = ground (arith, h)
advance-Justified f now at_top t w j h = after_top t.quit_ t refl
advance-Justified f now idle_test t w j h = after_idle t.run_ t.quit_ t refl refl
advance-Justified f now begins t w j h = after_begin now (equal t.init_delay no_time) t j.0 j.1
advance-Justified f now (at_loop d) t w j h =
    after_loop d t.run_ t.quit_ (equal t.period no_time) t w _ refl refl
advance-Justified f now idle_wait t w j h = ground (arith, h)
advance-Justified f now (delay_wait d) t w j h = ground (arith, h)
advance-Justified f now (period_wait d) t w j h = ground (arith, h)
advance-Justified f now ended t w j h = ground (arith, h)

abbrev pub Inv : {K W : Type 0} → System K W → Type 0
Inv s = Justified s.place s.timer s.awake

own-Inv :
    {K W : Type 0} (on_timer : K → W → W) (now : TimeBase) (p : Place) (t : ThreadTimer K)
    (a : Bool) (w : W)
    → Justified p t a
    → Inv (own on_timer now (record { timer = t; place = p; awake = a; world = w }))
unfolding Justified apart resume
own-Inv f now starting t a w j = refl
own-Inv f now at_top t a w j = advance-Justified f now at_top t w refl refl
own-Inv f now idle_test t a w j = advance-Justified f now idle_test t w refl refl
own-Inv f now begins t a w j = advance-Justified f now begins t w j refl
own-Inv f now (at_loop d) t a w j = advance-Justified f now (at_loop d) t w refl refl
own-Inv f now idle_wait t a w j = refl
own-Inv f now (delay_wait d) t a w j = refl
own-Inv f now (period_wait d) t a w j = refl
own-Inv f now ended t a w j = j

roused-Justified :
    {K : Type 0} (p : Place) (t : ThreadTimer K) → waits p ≡ true → Justified p t true
unfolding Justified waits
roused-Justified starting t h = ground (arith, h)
roused-Justified at_top t h = ground (arith, h)
roused-Justified idle_test t h = ground (arith, h)
roused-Justified begins t h = ground (arith, h)
roused-Justified (at_loop d) t h = ground (arith, h)
roused-Justified idle_wait t h = λ e. ground (arith, e)
roused-Justified (delay_wait d) t h = λ e. ground (arith, e)
roused-Justified (period_wait d) t h = λ e. ground (arith, e)
roused-Justified ended t h = ground (arith, h)

Step-Inv :
    {K W : Type 0} (on_timer : K → W → W) {s t : System K W} → Step on_timer s t → Inv s → Inv t
Step-Inv f (calls s c h) j = call-Justified c s.place s.timer s.awake j h
Step-Inv f (runs s now h) j = own-Inv f now s.place s.timer s.awake s.world j
Step-Inv f (rouses s h) j = roused-Justified s.place s.timer h
Step-Inv f (wakes s now h a) j = own-Inv f now s.place s.timer s.awake s.world j
Step-Inv f (enters s now h) j = own-Inv f now s.place s.timer s.awake s.world j

Reach-Inv :
    {K W : Type 0} (on_timer : K → W → W) {s t : System K W} → Reach on_timer s t → Inv s → Inv t
Reach-Inv f here v = v
Reach-Inv f (next r st) v = Step-Inv f st (Reach-Inv f r v)

pub reached :
    {K W : Type 0} (on_timer : K → W → W) (client : K) (w : W) (s : System K W)
    → Reach on_timer (new_timer client w) s
    → Inv s
unfolding Justified
reached f client w s r = Reach-Inv f r refl

pub asleep_lem :
    {K : Type 0} (p : Place) (t : ThreadTimer K) (a : Bool)
    → Justified p t a
    → waits p ≡ true
    → a ≡ false
    → (t.quit_ ≡ false) × (t.run_ ≡ not (is_idle p))
unfolding Justified waits is_idle
asleep_lem starting t a j h e = ground (arith, h)
asleep_lem at_top t a j h e = ground (arith, h)
asleep_lem idle_test t a j h e = ground (arith, h)
asleep_lem begins t a j h e = ground (arith, h)
asleep_lem (at_loop d) t a j h e = ground (arith, h)
asleep_lem idle_wait t a j h e = ((j e).1, (j e).0)
asleep_lem (delay_wait d) t a j h e = ((j e).1, (j e).0)
asleep_lem (period_wait d) t a j h e = ((j e).1, (j e).0)
asleep_lem ended t a j h e = ground (arith, h)

-- In every state that a timer thread and its callers can reach, in any interleaving, quit_ is
-- false where the thread is asleep, and run_ is false where it is asleep in the idle loop and true
-- where it is asleep in a timed wait.
pub asleep_flags :
    {K W : Type 0} (on_timer : K → W → W) (client : K) (w : W) (s : System K W)
    → Reach on_timer (new_timer client w) s
    → waits s.place ≡ true
    → s.awake ≡ false
    → (s.timer.quit_ ≡ false) × (s.timer.run_ ≡ not (is_idle s.place))
asleep_flags f client w s r h e = asleep_lem s.place s.timer s.awake (reached f client w s r) h e
