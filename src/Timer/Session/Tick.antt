-- ===== src/Timer/Session/Tick.antt =====
-- One timeout of a repeating timer, as its loop's thread sees it.
use ks_core.Base.{
  ℕ, suc, ◌+◌, ◌-◌, ◌≤◌, ◌≡◌, refl, ap, ◌∙◌, false, some, List, [], ◌∷◌, ◌++◌, length, map,
  update_self, arith,
}
use mathlib.Core.List.{append_assoc}
use ks_core.Host.{Result, ok}
use ks_core.Asio.{IoService, Queue, Waits}
use ks_core.World.{Handler, timeout_handler, EventLoop, World}
use ks_core.EventLoop.{ensure_active}
use ks_core.EventLoop.Post.{set_service}
use ks_core.EventLoop.Handlers.{completed, idle, handle, poll, process_events}
use ks_core.EventLoop.Posting.{IsTame, noted}
use ks_core.EventLoop.Delivered.{log-noted, callbacks-live}
use ks_core.Timer.Repeating.{signal_of, called}
use ks_core.Timer.Session.Kept.{poll-IsWaiting}
use ks_core.Timer.Session.Round.{posted, due, IsTaken, Fired, handle-Fired}
use ks_core.Timer.Session.Ticking.{IsTicking, still-IsTicking, length-callbacks-le}

module _ {B S U : Type 0} (io : IoService (Handler B) S) where
  -- One round of `poll` at a handler that returns.
  pub poll_completed :
      (run : B → World B S U → World B S U × Result) (x : Handler B) (n self k : ℕ)
      (w v : World B S U) (t : S)
      → io.next (w.loops k).service ≡ some (x, t)
      → handle io run self x (set_service io k t w) ≡ (v, completed ok)
      → poll io run (suc n) self k w ≡ poll io run n self k v
  unfolding poll
  poll_completed run x n self k w v t e h =
      rw (e, poll) (rw (ap (λ r. r.1) h) (ap (λ r. poll io run n self k r.0) h))

module _ {B S U : Type 0} (io : IoService (Handler B) S) (q : Queue io) (ws : Waits io q)
    (run : B → World B S U → World B S U × Result) (note : B → U → U) (tame : IsTame note run)
    (log : U → List B) (logs : (b : B) (u : U) → log (note b u) ≡ log u ++ b ∷ [])
    (self k i t : ℕ) where
  -- The time passes until the timer has expired.
  abbrev pub expired : World B S U → World B S U
  expired w = set_service io k (ws.expire i (w.loops k).service) w

  -- The loop's thread has taken the handler.
  taken :
      (w : World B S U)
      → IsTicking io q ws run note tame log logs self k i t w
      → (s : S) × (io.next ((expired w).loops k).service ≡ some (timeout_handler i false, s))
        × IsTaken io q ws run note tame log logs self k i (set_service io k s (expired w))
  unfolding ensure_active
  taken w v =
      let s = (w.loops k).service in
      let e = expired w in
      let at = update_self w.loops k (record (w.loops k) { service = ws.expire i s }) in
      let queue : q.queued (e.loops k).service ≡ timeout_handler i false ∷ [] =
        ap (λ (x : EventLoop S). q.queued x.service) at
        ∙ ws.expire_queued i (timeout_handler i) s v.waits
        ∙ ap (λ xs. xs ++ timeout_handler i false ∷ []) v.idle'.queue in
      let (s', next, left, still) =
        q.next_ready (e.loops k).service (timeout_handler i false) []
          (ap (λ (x : EventLoop S). q.stopped x.service) at ∙ ws.expire_stopped i s ∙ v.idle'.open')
          queue in
      let at' = update_self e.loops k (record (e.loops k) { service = s' }) in
      (
        s',
        next,
        record {
          idle = record {
            queue = ap (λ (x : EventLoop S). q.queued x.service) at' ∙ left;
            open' = ap (λ (x : EventLoop S). q.stopped x.service) at' ∙ still;
            active = ap (ensure_active self) at' ∙ ap (ensure_active self) at ∙ v.idle'.active;
          };
          gone =
              ap (λ (x : EventLoop S). ws.waiter x.service i) at'
              ∙ ws.next_waits (timeout_handler i false) i (e.loops k).service s' next
              ∙ ap (λ (x : EventLoop S). ws.waiter x.service i) at
              ∙ ws.expire_waits i s;
          here = v.here;
        },
      )

  -- One timeout: the calls that are due are made, each once, and the timer ticks on.
  pub tick :
      (fuel : ℕ) (w : World B S U)
      → IsTicking io q ws run note tame log logs self k i t w
      → length (signal_of i w).managed + 2 ≤ fuel
      → (w' : World B S U) × (process_events io run fuel self k (expired w) ≡ (w', idle))
        × IsTicking io q ws run note tame log logs self k i t w'
        × (log w'.user ≡ log w.user ++ due io q ws run note tame log logs self k i w)
        × (due io q ws run note tame log logs self k i w'
            ≡ due io q ws run note tame log logs self k i w)
        × (length (signal_of i w').managed ≤ length (signal_of i w).managed)
  unfolding process_events ensure_active
  tick fuel w v room =
      let mine = posted io q ws run note tame log logs self k i w in
      let few =
        length-callbacks-le (λ o. (w.objects o).alive) (λ o. (w.objects o).event_loop) tt k
          (signal_of i w).managed in
      let n = fuel - (length mine + 2) in
      let (s, next, took) = taken w v in
      let w0 = set_service io k s (expired w) in
      let (x, handled, f) =
        handle-Fired io q ws run note tame log logs self k i w0 took v.live v.again v.there
          v.plain in
      let (w', ends, p, end, user) =
        poll-IsWaiting io q ws run note tame self k i mine n x x f.open' f.queue f.active' (record {
          objects = refl;
          infos = refl;
          timers = refl;
          list_timers = refl;
          waits = f.waits;
        }) in
      let at =
        update_self w.loops k (record (w.loops k) { service = ws.expire i (w.loops k).service }) in
      let at' = update_self (expired w).loops k (record ((expired w).loops k) { service = s }) in
      let fired : Fired io q ws run note tame log logs self k i w x = record {
        open' = f.open';
        active' = f.active';
        queue = f.queue;
        objects = f.objects;
        infos = f.infos;
        list_timers =
            f.list_timers
            ∙ ap (λ (y : EventLoop S). y.list_timers) at'
            ∙ ap (λ (y : EventLoop S). y.list_timers) at;
        waits = f.waits;
        active = f.active;
        signal = f.signal;
        logged = f.logged;
      } in
      let (ticking, again, fewer) =
        still-IsTicking io q ws run note tame log logs self k i t w x w' v fired p end in
      let split : fuel ≡ suc (length mine + suc n) = omega (arith, room, few) in
      (
        w',
        rw (ap (ensure_active self) at ∙ v.idle'.active, process_events)
            (ap (λ a. poll io run a self k (expired w)) split
              ∙ poll_completed io run (timeout_handler i false) (length mine + suc n) self k
                  (expired w) x s next handled
              ∙ ends),
        ticking,
        ap log user
            ∙ ap (λ g. log (noted note g mine x.user)) f.objects
            ∙ log-noted note log logs w.objects mine x.user (
                callbacks-live note log logs w.objects (λ o. (w.objects o).event_loop) tt k
                  (signal_of i w).managed v.plain.1)
            ∙ ap (λ xs. xs ++ map (λ c. c.body) mine) f.logged
            ∙ append_assoc (log w.user) (called i w) (map (λ c. c.body) mine),
        again,
        fewer,
      )
