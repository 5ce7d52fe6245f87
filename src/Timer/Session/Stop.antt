-- ===== src/Timer/Session/Stop.antt =====
-- Timer::Stop (ks/KsTimer.cpp) on an idle loop.
use ks_core.Base.{ℕ, suc, ◌≡◌, refl, sym, ap, ◌∙◌, true, false, List, [], ◌∷◌, ◌++◌, update_self}
use ks_core.Host.{Result, ok}
use ks_core.Asio.{IoService, Queue, Waits}
use ks_core.World.{Handler, timeout_handler, EventLoop, Timer, World, set_timer, set_info, set_loop}
use ks_core.EventLoop.{ensure_active}
use ks_core.EventLoop.Post.{
  set_service, find_timer, erase_timer, cancel_info, stop_timer, post_event,
}
use ks_core.EventLoop.Handlers.{completed, idle, handle, handle_timeout, process_events}
use ks_core.EventLoop.Posting.{IsTame, poll_empty}
use ks_core.Timer.{stop, get_active}
use ks_core.Timer.Session.Kept.{IsIdle}
use ks_core.Timer.Session.Ticking.{IsTicking}
use ks_core.Timer.Session.Tick.{poll_completed}

module _ {B S U : Type 0} (io : IoService (Handler B) S) (q : Queue io) (ws : Waits io q)
    (run : B → World B S U → World B S U × Result) (note : B → U → U) (tame : IsTame note run)
    (log : U → List B) (logs : (b : B) (u : U) → log (note b u) ≡ log u ++ b ∷ [])
    (self k t : ℕ) where
  stop_cancels :
      (i : ℕ) (w : World B S U)
      → IsTicking io q ws run note tame log logs self k i t w
      → stop io t w
        ≡ cancel_info io k
            (w.objects t).id
            i
            (set_timer t (record (w.timers t) { active = false }) w)
  unfolding stop post_event
  stop_cancels i w v =
      let found = ap (λ id. find_timer id (w.loops k).list_timers) (sym v.named) ∙ v.found in
      let there = ap (λ o. (w.objects o).alive) (sym v.mine) ∙ v.there in
      ap (λ l. stop_timer io l (w.objects t).id w) v.home
      ∙ unfold stop_timer in (rw (found, stop_timer) (rw v.mine (rw there refl)))

  -- Timer::Stop, and what the loop's thread does with the handler that asio aborts.
  pub stop_ticking :
      (i n : ℕ) (w : World B S U)
      → IsTicking io q ws run note tame log logs self k i t w
      → (w' : World B S U) × (process_events io run (suc (suc n)) self k (stop io t w) ≡ (w', idle))
        × IsIdle io q ws run note tame self k i w'
        × (get_active t w' ≡ false)
        × (w'.user ≡ w.user)
  unfolding ensure_active cancel_info
  stop_ticking i n w v =
      let off : Timer B = record (w.timers t) { active = false } in
      let x = set_timer t off w in
      let same = stop_cancels i w v in
      let y = w.loops k in
      let loop : EventLoop S = record y {
        service = io.cancel i y.service;
        list_timers = erase_timer (w.objects t).id y.list_timers;
      } in
      let at = update_self w.loops k loop in
      let u = set_info i (record (w.infos i) { canceled = true }) (set_loop k loop x) in
      let (s, next, left, still) =
        q.next_ready (u.loops k).service (timeout_handler i true) []
          (ap (λ (z : EventLoop S). q.stopped z.service) at
            ∙ ws.cancel_stopped i y.service
            ∙ v.idle'.open')
          (ap (λ (z : EventLoop S). q.queued z.service) at
            ∙ ws.cancel_queued i (timeout_handler i) y.service v.waits
            ∙ ap (λ xs. xs ++ timeout_handler i true ∷ []) v.idle'.queue) in
      let w' = set_service io k s u in
      let at' = update_self u.loops k (record (u.loops k) { service = s }) in
      let active = ap (ensure_active self) at ∙ v.idle'.active in
      let empty = ap (λ (z : EventLoop S). q.queued z.service) at' ∙ left in
      let aborted : handle io run self (timeout_handler i true) w' ≡ (w', completed ok) =
        unfold handle handle_timeout in refl in
      (
        w',
        rw same (
            unfold process_events in
            (rw (active, process_events)
              (poll_completed io run (timeout_handler i true) (suc n) self k u w' s next aborted
                ∙ poll_empty io run note tame q n self k w' empty))),
        record {
          queue = empty;
          open' = ap (λ (z : EventLoop S). q.stopped z.service) at' ∙ still;
          active = ap (ensure_active self) at' ∙ active;
        },
        unfold get_active in (ap (λ (z : Timer B). z.active) (update_self w.timers t off)),
        refl,
      )

  -- The timer says that it is active.
  pub ticking_active :
      (i : ℕ) (w : World B S U)
      → IsTicking io q ws run note tame log logs self k i t w
      → get_active t w ≡ true
  unfolding get_active
  ticking_active i w v = ap (λ o. (w.timers o).active) (sym v.mine) ∙ v.active
