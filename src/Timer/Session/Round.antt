-- ===== src/Timer/Session/Round.antt =====
-- One timeout of a repeating timer: it expires, and the loop's thread calls ProcessEvents.
use ks_core.Base.{
  ℕ, ◌≡◌, refl, sym, ap, ◌∙◌, true, false, none, some, List, [], ◌∷◌, ◌++◌, map, update_self,
  keep_if,
}
use ks_core.Event.{Callback, slot_event}
use ks_core.Host.{Result, ok}
use ks_core.Signal.{Signal}
use ks_core.Signal.Emit.{emit}
use ks_core.Signal.Delivery.{emit_delivers, posts}
use ks_core.Signal.Invariant.{emit-keeps}
use ks_core.Asio.{IoService, Queue, Waits}
use ks_core.World.{Handler, event_handler, timeout_handler, EventLoop, Timer, World, set_timer}
use ks_core.EventLoop.{ensure_active}
use ks_core.EventLoop.Post.{host}
use ks_core.EventLoop.Handlers.{completed, settle, rearm, handle_timeout, handle}
use ks_core.EventLoop.Posting.{IsTame}
use ks_core.EventLoop.Interface.{host-Quiet, events}
use ks_core.EventLoop.Delivered.{callbacks, posts-callbacks, map-slots}
use ks_core.Timer.Timeout.{IsPlain}
use ks_core.Timer.Repeating.{signal_of, called}
use ks_core.Timer.Session.Kept.{Emits, Emits-IsKept, IsIdle}

module _ {B S U : Type 0} (io : IoService (Handler B) S) (q : Queue io) (ws : Waits io q)
    (run : B → World B S U → World B S U × Result) (note : B → U → U) (tame : IsTame note run)
    (log : U → List B) (logs : (b : B) (u : U) → log (note b u) ≡ log u ++ b ∷ [])
    (self k i : ℕ) where
  -- The slots that a timeout posts to the loop, and all the calls that it leads to.
  abbrev pub posted : World B S U → List (Callback B)
  posted w =
      callbacks (λ o. (w.objects o).alive) (λ o. (w.objects o).event_loop) tt k
        (signal_of i w).managed

  abbrev pub due : World B S U → List B
  due w = called i w ++ map (λ c. c.body) (posted w)

  -- The loop when it has taken the handler of the timeout.
  pub record IsTaken (w : World B S U) : Type 0 where
    pub idle : IsIdle io q ws run note tame self k i w
    pub gone : ws.waiter (w.loops k).service i ≡ none
    pub here : (w.infos i).loop ≡ k

  rearm-Emits :
      (w : World B S U) → IsTaken w → Emits io q ws run note tame self k i w (rearm io run i w)
  unfolding rearm ensure_active
  rearm-Emits w v =
      let ms = (w.infos i).interval_ms in
      let s = (w.loops k).service in
      let s' = io.expires_from_now i ms s in
      let e : q.queued (io.async_wait i (timeout_handler i) s') ≡ [] =
        ws.async_wait_queued i _ s' ∙ ws.expires_queued i ms s v.gone ∙ v.idle.queue in
      let at =
        update_self w.loops k
          (record (w.loops k) { service = io.async_wait i (timeout_handler i) s' }) in
      rw v.here (
        rw at (record {
          open' = ws.async_wait_stopped i _ s' ∙ ws.expires_stopped i ms s ∙ v.idle.open';
          active = v.idle.active;
          only_events = e ∙ sym (ap (λ xs. map event_handler (events xs)) e);
        }),
        record {
          objects = refl;
          infos = refl;
          timers = refl;
          list_timers = ap (λ (x : EventLoop S). x.list_timers) at;
          waits =
              ap (λ (x : EventLoop S). ws.waiter x.service i) at
              ∙ ws.async_wait_waits i (timeout_handler i) s';
        },
      )

  rearm-events :
      (w : World B S U)
      → IsTaken w
      → (events (q.queued ((rearm io run i w).loops k).service) ≡ [])
        × ((rearm io run i w).user ≡ w.user)
  unfolding rearm
  rearm-events w v =
      let ms = (w.infos i).interval_ms in
      let s = (w.loops k).service in
      let s' = io.expires_from_now i ms s in
      rw
        (
          v.here,
          update_self w.loops k
              (record (w.loops k) { service = io.async_wait i (timeout_handler i) s' }),
        )
        (
          ap events (
              ws.async_wait_queued i (timeout_handler i) s'
              ∙ ws.expires_queued i ms s v.gone
              ∙ v.idle.queue),
          refl,
        )

  -- What the handler of the timeout does.
  pub record Fired (w v : World B S U) : Type 0 where
    pub open' : q.stopped (v.loops k).service ≡ false
    pub active' : ensure_active self (v.loops k) ≡ ok
    pub queue : q.queued (v.loops k).service ≡ map (λ c. event_handler (slot_event c)) (posted w)
    pub objects : v.objects ≡ w.objects
    pub infos : v.infos ≡ w.infos
    pub list_timers : (v.loops k).list_timers ≡ (w.loops k).list_timers
    pub waits : ws.waiter (v.loops k).service i ≡ some (timeout_handler i)
    pub active : (v.timers (w.infos i).timer).active ≡ (w.timers (w.infos i).timer).active
    pub signal : signal_of i v ≡ record (signal_of i w) {
      managed = keep_if (λ c. (w.objects c.context).alive) (signal_of i w).managed;
    }
    pub logged : log v.user ≡ log w.user ++ called i w

  pub handle-Fired :
      (w : World B S U)
      → IsTaken w
      → (w.infos i).canceled ≡ false
      → (w.infos i).repeat ≡ true
      → (w.objects (w.infos i).timer).alive ≡ true
      → IsPlain io run note tame q log logs (signal_of i w)
      → (v : World B S U) × (handle io run self (timeout_handler i false) w ≡ (v, completed ok))
        × Fired w v
  unfolding handle handle_timeout settle rearm
  handle-Fired w taken live again there plain =
      let t = (w.infos i).timer in
      let s = signal_of i w in
      let x = rearm io run i w in
      let d =
        emit_delivers (host io run) (host-Quiet io q run note tame log logs) self tt s x k plain.0
          plain.1 plain.2 in
      let (ready, kept) =
        emit-keeps (host io run) (Emits io q ws run note tame self k i w)
          (Emits-IsKept io q ws run note tame self k i w) self tt s x (rearm-Emits w taken) in
      let y = (emit (host io run) self tt s x).0 in
      let s' : Signal (Unit {0}) B = record s {
        managed = keep_if (λ c. (w.objects c.context).alive) s.managed;
      } in
      let timer : Timer B = record (y.timers t) { signal_timeout = s' } in
      let at = update_self y.timers t timer in
      (
        set_timer t timer y,
        rw (live, there, again, handle, handle_timeout) (rw (d.0, settle) refl),
        record {
          open' = ready.open';
          active' = ready.active;
          queue =
              ready.only_events
              ∙ ap (map event_handler) (
                  d.1
                  ∙ ap
                      (λ es.
                        es
                        ++ posts (λ o. (w.objects o).alive) (λ o. (w.objects o).event_loop) tt k
                            s.managed)
                      (rearm-events w taken).0
                  ∙ posts-callbacks (λ o. (w.objects o).alive) (λ o. (w.objects o).event_loop) tt k
                      s.managed)
              ∙ map-slots (posted w);
          objects = kept.objects;
          infos = kept.infos;
          list_timers = kept.list_timers;
          waits = kept.waits;
          active =
              ap (λ (z : Timer B). z.active) at
              ∙ ap (λ (f : ℕ → Timer B). (f t).active) kept.timers;
          signal =
              ap (λ f. ((set_timer t timer y).timers (f i).timer).signal_timeout) kept.infos
              ∙ ap (λ (z : Timer B). z.signal_timeout) at;
          logged = d.2;
        },
      )
