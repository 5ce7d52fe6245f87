-- ===== src/Timer/Timeout.antt =====
-- What a timeout does that comes in time (TimeoutHandler of ks/KsEventLoop.cpp), for slots that
-- change only what belongs to the user.
use ks_core.Base.{
  ℕ, ◌^◌, ◌<◌, ◌≡◌, ◌≢◌, refl, ap, ◌∙◌, Bool, true, false, Option, none, some, List, [], ◌∷◌, ◌++◌,
  map, length, All, keep_if, if◌then◌else◌, update_self, Bool-cases, inl, inr, ◌==◌, ==_iff,
}
use ks_core.Event.{slot_event, blocking_slot_event}
use ks_core.Host.{Result, ok}
use ks_core.Signal.{blocking, Signal}
use ks_core.Signal.Emit.{emit}
use ks_core.Signal.Delivery.{IsGuarded, emit_delivers, calls, posts}
use ks_core.Signal.Invariant.{IsKept, emit-keeps}
use ks_core.Asio.{IoService, Queue, Waits}
use ks_core.World.{Handler, event_handler, timeout_handler, EventLoop, Timer, World, set_timer}
use ks_core.EventLoop.Post.{host, post, post_event}
use ks_core.EventLoop.Handlers.{Handled, completed, settle, rearm, handle_timeout, handle}
use ks_core.EventLoop.Posting.{IsTame}
use ks_core.EventLoop.Interface.{host-Quiet, events}

module _ {B S U : Type 0} (io : IoService (Handler B) S)
    (run : B → World B S U → World B S U × Result) (note : B → U → U) (tame : IsTame note run) where
  timers-IsKept : (w : World B S U) → IsKept (host io run) (λ v. v.timers ≡ w.timers)
  unfolding post_event post
  timers-IsKept w = record {
    kept_run = λ b v p. ap (λ r. r.0.timers) (tame b v) ∙ p;
    kept_slot = λ l c v p. p;
    kept_blocking = λ l f c v p. p;
    kept_flag = λ v p. p;
  }

  module _ (q : Queue io) (log : U → List B)
      (logs : (b : B) (u : U) → log (note b u) ≡ log u ++ b ∷ []) where
    -- What is asked of the slots of a timer.
    abbrev pub IsPlain : Signal (Unit {0}) B → Type 0
    IsPlain s =
        All (λ c. c.fn.guard ≡ none) s.unmanaged
        × All (λ c. (c.type ≢ blocking) × IsGuarded c) s.managed
        × (length s.managed < 2 ^ 32)

    -- What is to come of the signal of timer `t` for the objects and the user of `w`: the calls, the
    -- events for loop `k`, whose queue is that of `u` before, and the connections that stay.
    abbrev Emitted :
        ℕ → ℕ → Signal (Unit {0}) B → World B S U → World B S U → World B S U × Handled B → Type 0
    Emitted t k s w u r =
        (r.1 ≡ completed ok)
        × ((r.0.timers t).signal_timeout
            ≡ record s { managed = keep_if (λ c. (w.objects c.context).alive) s.managed })
        × (log r.0.user
            ≡ log w.user
              ++ (map (λ c. c.fn.slot tt) s.unmanaged
                  ++ calls (λ o. (w.objects o).alive) (λ o. (w.objects o).event_loop) tt s.managed))
        × (events (q.queued (r.0.loops k).service)
            ≡ events (q.queued (u.loops k).service)
              ++ posts (λ o. (w.objects o).alive) (λ o. (w.objects o).event_loop) tt k s.managed)

    -- The end of a timeout: the signal is emitted in `v`, and kept as Emit leaves it.
    emitted :
        (self t k : ℕ) (v : World B S U) (s : Signal (Unit {0}) B)
        → IsPlain s
        → let r = settle io run t (emit (host io run) self tt s v) in
          Emitted t k s v v r
          × ((r.0.timers t).active ≡ (v.timers t).active)
          × (r.0.loops ≡ (emit (host io run) self tt s v).0.loops)
    unfolding settle
    emitted self t k v s (plain, guarded, small) =
        let r = emit (host io run) self tt s v in
        let d =
          emit_delivers (host io run) (host-Quiet io q run note tame log logs) self tt s v k plain
            guarded small in
        let same =
          emit-keeps (host io run) (λ x. x.timers ≡ v.timers) (timers-IsKept v) self tt s v refl in
        rw (d.0, settle)
          (
            (refl, ap (λ (x : Timer B). x.signal_timeout) (update_self r.0.timers t _), d.2, d.1),
            ap (λ (x : Timer B). x.active) (update_self r.0.timers t _)
                ∙ ap (λ (f : ℕ → Timer B). (f t).active) same,
            refl,
          )

    -- The state in which the handler emits: the timer waits again, or is inactive.
    abbrev resumed : ℕ → World B S U → World B S U
    resumed i w =
        let t = (w.infos i).timer in
        if (w.infos i).repeat
        then rearm io run i w
        else set_timer t (record (w.timers t) { active = false }) w

    pub timeout_emits :
        (self i k : ℕ) (w : World B S U)
        → let info = w.infos i in
          let t = info.timer in
          let s = (w.timers t).signal_timeout in
          info.canceled ≡ false
          → (w.objects t).alive ≡ true
          → IsPlain s
          → let r = handle io run self (timeout_handler i false) w in
            Emitted t k s w (resumed i w) r
            × ((r.0.timers t).active ≡ (if info.repeat then (w.timers t).active else false))
            × (r.0.loops ≡ (emit (host io run) self tt s (resumed i w)).0.loops)
    unfolding handle handle_timeout rearm
    timeout_emits self i k w live there plain =
        let t = (w.infos i).timer in
        let s = (w.timers t).signal_timeout in
        elim (Bool-cases (w.infos i).repeat) [
          | inl e ↦
              rw (live, there, e, handle, handle_timeout)
                (emitted self t k (rearm io run i w) s plain)
          | inr e ↦
              let off : Timer B = record (w.timers t) { active = false } in
              let at = update_self w.timers t off in
              let d = emitted self t k (set_timer t off w) s plain in
              rw (live, there, e, handle, handle_timeout)
                (rw at (d.0, d.1 ∙ ap (λ (x : Timer B). x.active) at, d.2))
        ]

    module _ (ws : Waits io q) where
      -- The wait of timer `i` on the service of loop `k`.
      abbrev waits_for : ℕ → ℕ → World B S U → Option (Bool → Handler B)
      waits_for k i v = ws.waiter (v.loops k).service i

      post_waits_for :
          (k i l : ℕ) (x : Handler B) (v : World B S U)
          → ws.waiter ((post io l x v).loops k).service i ≡ ws.waiter (v.loops k).service i
      unfolding post
      post_waits_for k i l x v = elim (Bool-cases (l == k)) [
        | inl at ↦ rw (at, (==_iff l k).0 at) (ws.post_waits x i (v.loops k).service)
        | inr off ↦ rw off refl
      ]

      waits-IsKept :
          (k i : ℕ) (f : Option (Bool → Handler B))
          → IsKept (host io run) (λ v. waits_for k i v ≡ f)
      unfolding post_event
      waits-IsKept k i f = record {
        kept_run = λ b v p. ap (λ r. waits_for k i r.0) (tame b v) ∙ p;
        kept_slot = λ l c v p. post_waits_for k i l (event_handler (slot_event c)) v ∙ p;
        kept_blocking =
            λ l x c v p. post_waits_for k i l (event_handler (blocking_slot_event c x)) v ∙ p;
        kept_flag = λ v p. p;
      }

      -- Before the handler emits, no queue has changed, and the timer waits if it repeats.
      resumed_lem :
          (i k : ℕ) (w : World B S U)
          → waits_for (w.infos i).loop i w ≡ none
          → (events (q.queued ((resumed i w).loops k).service)
              ≡ events (q.queued (w.loops k).service))
            × (waits_for (w.infos i).loop i (resumed i w)
                ≡ (if (w.infos i).repeat then some (timeout_handler i) else none))
      unfolding rearm
      resumed_lem i k w over = elim (Bool-cases (w.infos i).repeat) [
        | inr e ↦ rw e (refl, over)
        | inl e ↦
            let l = (w.infos i).loop in
            let ms = (w.infos i).interval_ms in
            let s = (w.loops l).service in
            let s' = io.expires_from_now i ms s in
            let v : EventLoop S = record (w.loops l) {
              service = io.async_wait i (timeout_handler i) s';
            } in
            let same : q.queued v.service ≡ q.queued s =
              ws.async_wait_queued i (timeout_handler i) s' ∙ ws.expires_queued i ms s over in
            rw e (
              elim (Bool-cases (l == k)) [
                | inl at ↦ rw at (rw (← (==_iff l k).0 at) (ap events same))
                | inr off ↦ rw off refl
              ],
              ap (λ (x : EventLoop S). ws.waiter x.service i) (update_self w.loops l v)
                  ∙ ws.async_wait_waits i (timeout_handler i) s',
            )
      ]

      -- The timeout of a TimerInfo that is not cancelled, whose timer is alive and has a plain
      -- signal: direct and queued connections as Connect makes them, fewer than 2 ^ 32; its wait is
      -- over. The handler returns. Every unmanaged connection and every direct one with a living
      -- context has been called once, in order; each loop `k` has got one event for each queued
      -- connection with a living context there, in order; and the connections with dead contexts
      -- are gone from the timer's signal. If the timer repeats, it is as active as before, and waits
      -- for its next timeout; if not, it is inactive, and does not wait.
      pub timeout_fires :
          (self i k : ℕ) (w : World B S U)
          → let info = w.infos i in
            let t = info.timer in
            let s = (w.timers t).signal_timeout in
            info.canceled ≡ false
            → (w.objects t).alive ≡ true
            → IsPlain s
            → ws.waiter (w.loops info.loop).service i ≡ none
            → let r = handle io run self (timeout_handler i false) w in
              Emitted t k s w w r
              × ((r.0.timers t).active ≡ (if info.repeat then (w.timers t).active else false))
              × (ws.waiter (r.0.loops info.loop).service i
                  ≡ (if info.repeat then some (timeout_handler i) else none))
      timeout_fires self i k w live there plain over =
          let t = (w.infos i).timer in
          let l = (w.infos i).loop in
          let s = (w.timers t).signal_timeout in
          let ((done, signal, logged, queue), active, loops) =
            timeout_emits self i k w live there plain in
          let (same, waits) = resumed_lem i k w over in
          let kept =
            emit-keeps (host io run) (λ v. waits_for l i v ≡ waits_for l i (resumed i w))
              (waits-IsKept l i _) self tt s (resumed i w) refl in
          (
            (done, signal, logged, rw same at queue),
            active,
            ap (λ f. ws.waiter (f l).service i) loops ∙ kept ∙ waits,
          )
