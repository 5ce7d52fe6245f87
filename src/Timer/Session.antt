-- ===== src/Timer/Session.antt =====
-- A timer on its loop's thread (ks/KsTimer.cpp, KsEventLoop.cpp, KsSignal.hpp): it is started, its
-- timeouts expire one after the other, the loop's thread calls ProcessEvents, and it is stopped.
pub mod Kept
pub mod Round
pub mod Ticking
pub mod Tick
pub mod Start
pub mod Stop
mod Tests
use mathlib.Core.List.{append-nil, append_assoc}
use ks_core.Base.{
  ℕ, zero, suc, ◌+◌, ◌≤◌, ◌≡◌, refl, sym, ap, ◌∙◌, Bool, true, false, Option, none, some, List, [],
  ◌∷◌, ◌++◌, length, map, arith,
}
use ks_core.Host.{Result, ok}
use ks_core.Signal.{Signal}
use ks_core.EventLoop.Delivered.{callbacks}
use ks_core.Asio.{IoService, Queue, Waits}
use ks_core.World.{Handler, Object, World}
use ks_core.EventLoop.{ensure_active}
use ks_core.EventLoop.Post.{set_service, find_timer}
use ks_core.EventLoop.Handlers.{idle, failed, stuck, out_of_fuel, process_events}
use ks_core.EventLoop.Posting.{IsTame}
use ks_core.Timer.{start, stop, get_active}
use ks_core.Timer.Timeout.{IsPlain}
use ks_core.Timer.Repeating.{signal_of, due_calls, times}
use ks_core.Timer.Session.Round.{due}
use ks_core.Timer.Session.Ticking.{IsTicking}
use ks_core.Timer.Session.Tick.{tick}
use ks_core.Timer.Session.Start.{start_inserts, start-IsTicking, Same, insert_info-Same}
use ks_core.Timer.Session.Stop.{stop_ticking, ticking_active}

-- What each timeout calls on loop `k`, with the signal `s`: its functions and its direct slots with
-- living objects, and then the queued slots of living objects of the loop.
abbrev pub calls_of : {B : Type 0} → ℕ → (ℕ → Object) → Signal (Unit {0}) B → List B
calls_of k objects s =
    let alive : ℕ → Bool = λ o. (objects o).alive in
    let loop : ℕ → ℕ = λ o. (objects o).event_loop in
    due_calls alive loop s ++ map (λ c. c.body) (callbacks alive loop tt k s.managed)

module _ {B S U : Type 0} (io : IoService (Handler B) S) (q : Queue io) (ws : Waits io q)
    (run : B → World B S U → World B S U × Result) (self k i : ℕ) where
  -- `n` times: the timer `i` expires, and the loop's thread calls ProcessEvents; `none` is one that
  -- does not come back.
  abbrev pub ticks : ℕ → ℕ → World B S U → Option (World B S U)
  ticks fuel zero w = some w
  ticks fuel (suc n) w =
      let r =
        process_events io run fuel self k (set_service io k (ws.expire i (w.loops k).service) w) in
      elim r.1 [
        | idle ↦ ticks fuel n r.0
        | failed e ↦ none
        | stuck t f cs m ↦ none
        | out_of_fuel ↦ none
      ]

  ticks_step :
      (fuel n : ℕ) (w x w' : World B S U)
      → process_events io run fuel self k (set_service io k (ws.expire i (w.loops k).service) w)
        ≡ (x, idle)
      → ticks fuel n x ≡ some w'
      → ticks fuel (suc n) w ≡ some w'
  ticks_step fuel n w x w' e f = rw (ap (λ r. r.1) e, ticks) (ap (λ r. ticks fuel n r.0) e ∙ f)

module _ {B S U : Type 0} (io : IoService (Handler B) S) (q : Queue io) (ws : Waits io q)
    (run : B → World B S U → World B S U × Result) (note : B → U → U) (tame : IsTame note run)
    (log : U → List B) (logs : (b : B) (u : U) → log (note b u) ≡ log u ++ b ∷ [])
    (self k t : ℕ) where
  ticks-IsTicking :
      (i fuel n : ℕ) (w : World B S U)
      → IsTicking io q ws run note tame log logs self k i t w
      → length (signal_of i w).managed + 2 ≤ fuel
      → (w' : World B S U) × (ticks io q ws run self k i fuel n w ≡ some w')
        × IsTicking io q ws run note tame log logs self k i t w'
        × (log w'.user ≡ log w.user ++ times n (due io q ws run note tame log logs self k i w))
  ticks-IsTicking i fuel zero w v room = (w, refl, v, sym (append-nil (log w.user)))
  ticks-IsTicking i fuel (suc n) w v room =
      let calls = due io q ws run note tame log logs self k i w in
      let (x, same, ticking, logged, again, fewer) =
        tick io q ws run note tame log logs self k i t fuel w v room in
      let (w', others, end, later) =
        ticks-IsTicking i fuel n x ticking (omega (arith, fewer, room)) in
      (
        w',
        ticks_step io q ws run self k i fuel n w x w' same others,
        end,
        later
            ∙ ap (λ c. log x.user ++ times n c) again
            ∙ ap (λ l. l ++ times n calls) logged
            ∙ append_assoc (log w.user) calls (times n calls),
      )

  -- A timer's life, on a loop that thread `self` has started, whose queue is empty: the timer,
  -- which has no TimerInfo, is started as a repeating one; then, `n` times, its time passes and the
  -- thread calls ProcessEvents; then it is stopped, and ProcessEvents is called once more. Each
  -- ProcessEvents comes back. Each of the `n` calls each of the timer's functions, direct slots and
  -- slots that are queued on its loop once, where their objects live, and the last one calls
  -- nothing. The timer is active from Start to Stop.
  pub timer_session :
      (ms n fuel m : ℕ) (w : World B S U)
      → ensure_active self (w.loops k) ≡ ok
      → q.stopped (w.loops k).service ≡ false
      → q.queued (w.loops k).service ≡ []
      → (w.objects t).event_loop ≡ k
      → (w.objects t).alive ≡ true
      → find_timer (w.objects t).id (w.loops k).list_timers ≡ none
      → IsPlain io run note tame q log logs (w.timers t).signal_timeout
      → length (w.timers t).signal_timeout.managed + 2 ≤ fuel
      → let v = start io t ms true w in
        (x w' : World B S U) × (ticks io q ws run self k w.next_info fuel n v ≡ some x)
        × (process_events io run (suc (suc m)) self k (stop io t x) ≡ (w', idle))
        × (log x.user ≡ log w.user ++ times n (calls_of k w.objects (w.timers t).signal_timeout))
        × (log w'.user ≡ log x.user)
        × (get_active t v ≡ true)
        × (get_active t x ≡ true)
        × (get_active t w' ≡ false)
        × (q.queued (w'.loops k).service ≡ [])
  timer_session ms n fuel m w a o e home there fresh plain room =
      let i = w.next_info in
      let v = start io t ms true w in
      let ticking =
        start-IsTicking io q ws run note tame log logs self k t ms w
          (record { queue = e; open' = o; active = a }) home there fresh plain in
      let kept : Same io q ws run note tame log logs self k t w v =
        rw (start_inserts io q ws run note tame log logs self k t ms w home there fresh)
          (insert_info-Same io q ws run note tame log logs self k t ms w) in
      let (signal, objects, user) = kept in
      let (x, runs, still, logged) = ticks-IsTicking i fuel n v ticking (rw signal room) in
      let (w', ends, free, off, quiet) =
        stop_ticking io q ws run note tame log logs self k t i m x still in
      (
        x,
        w',
        runs,
        ends,
        logged
            ∙ ap (λ u. log u ++ times n (due io q ws run note tame log logs self k i v)) user
            ∙ ap (λ c. log w.user ++ times n c)
                (ap (λ g. calls_of k g (signal_of i v)) objects ∙ ap (calls_of k w.objects) signal),
        ap log quiet,
        ticking_active io q ws run note tame log logs self k t i v ticking,
        ticking_active io q ws run note tame log logs self k t i x still,
        off,
        free.queue,
      )
