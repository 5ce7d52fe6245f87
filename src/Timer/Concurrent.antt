-- ===== src/Timer/Concurrent.antt =====
-- A timer that is started anew while the handler of its timeout runs (startTimer and TimeoutHandler
-- of ks/KsEventLoop.cpp).
use ks_core.Base.{
  ℕ, ◌<◌, ◌≡◌, refl, sym, ap, ◌∙◌, true, false, some, [], ◌∷◌, arith, update_self, Option-cases,
  inl, inr,
}
use ks_core.Event.{StartTimer, start_timer_event}
use ks_core.Host.{Result}
use ks_core.Signal.Emit.{Progress, returned, waiting, thrown, emit}
use ks_core.Signal.Invariant.{IsKept, emit-keeps}
use ks_core.Asio.{IoService}
use ks_core.World.{Handler, timeout_handler, Timer, World, set_timer}
use ks_core.EventLoop.Post.{
  find_timer, cancel_info, insert_info, start_timer, host, post, post_event,
}
use ks_core.EventLoop.Handlers.{settle, handle}
use ks_core.EventLoop.Posting.{IsTame}
use ks_core.Timer.{get_active}
use ks_core.Timer.Stale.{stale_timeout}
use ks_core.EventLoop.Lifecycle.{posts, step, steps}
use ks_core.Timer.Parts.{
  mark_timeout, emit_timeout, handle_timeout_between, handle_timeout_between_lem, goes_on,
}

module _ {B S U : Type 0} (io : IoService (Handler B) S) where
  -- The loop has a TimerInfo of this id that is not cancelled, for the timer.
  abbrev pub IsArmed : ℕ → ℕ → ℕ → World B S U → Type 0
  IsArmed l id t w =
      (j : ℕ) × (find_timer id (w.loops l).list_timers ≡ some j)
      × ((w.infos j).canceled ≡ false)
      × ((w.infos j).timer ≡ t)

  -- What startTimer does for a living timer, as far as the handler of `i` sees it.
  abbrev Started : ℕ → ℕ → StartTimer → World B S U → World B S U → Type 0
  Started l i ev w v =
      ((v.timers ev.timer).active ≡ true)
      × IsArmed l ev.timer_id ev.timer v
      × (v.objects ≡ w.objects)
      × (i < w.next_info → (v.infos i).timer ≡ (w.infos i).timer)
      × (i < w.next_info → (v.infos i).repeat ≡ (w.infos i).repeat)

  insert_info_starts :
      (l i : ℕ) (ev : StartTimer) (w : World B S U) → Started l i ev w (insert_info io l ev w)
  unfolding insert_info
  insert_info_starts l i ev w = (
    ground arith,
    (w.next_info, ground arith, ground arith, ground arith),
    refl,
    λ b. ground arith,
    λ b. ground arith,
  )

  cancel_info_same :
      (l id i j : ℕ) (w : World B S U)
      → let v = cancel_info io l id j w in
        (v.next_info ≡ w.next_info)
        × (v.objects ≡ w.objects)
        × ((v.infos i).timer ≡ (w.infos i).timer)
        × ((v.infos i).repeat ≡ (w.infos i).repeat)
  unfolding cancel_info
  cancel_info_same l id i j w = (refl, refl, ground arith, ground arith)

  start_timer_starts :
      (l i : ℕ) (ev : StartTimer) (w : World B S U)
      → (w.objects ev.timer).alive ≡ true
      → Started l i ev w (start_timer io l ev w)
  unfolding start_timer
  start_timer_starts l i ev w live =
      elim (Option-cases (find_timer ev.timer_id (w.loops l).list_timers)) [
        | inl e ↦ rw (live, e, start_timer) (insert_info_starts l i ev w)
        | inr (j, e) ↦
            let v = cancel_info io l ev.timer_id j w in
            let (next, objects, timer, repeat) = cancel_info_same l ev.timer_id i j w in
            let (a, armed, o, t, r) = insert_info_starts l i ev v in
            rw (live, e, start_timer)
              (a, armed, o ∙ objects, λ b. t (rw next b) ∙ timer, λ b. r (rw next b) ∙ repeat)
      ]

module _ {B S U : Type 0} (io : IoService (Handler B) S)
    (run : B → World B S U → World B S U × Result) (note : B → U → U) (tame : IsTame note run) where
  -- What Emit leaves as it is.
  abbrev IsSame : ℕ → World B S U → World B S U → Type 0
  IsSame l w v =
      (v.objects ≡ w.objects)
      × (v.infos ≡ w.infos)
      × ((v.loops l).list_timers ≡ (w.loops l).list_timers)
      × (v.timers ≡ w.timers)

  IsSame-IsKept : (l : ℕ) (w : World B S U) → IsKept (host io run) (IsSame l w)
  unfolding post_event post
  IsSame-IsKept l w = record {
    kept_run = λ b v p. (
      ap (λ r. r.0.objects) (tame b v) ∙ p.0,
      ap (λ r. r.0.infos) (tame b v) ∙ p.1,
      ap (λ r. (r.0.loops l).list_timers) (tame b v) ∙ p.2,
      ap (λ r. r.0.timers) (tame b v) ∙ p.3,
    );
    kept_slot = λ k c v p. (p.0, p.1, ground (arith, p.2), p.3);
    kept_blocking = λ k f c v p. (p.0, p.1, ground (arith, p.2), p.3);
    kept_flag = λ v p. p;
  }

  -- The timer's signal is all that the end of the handler changes.
  abbrev IsSettled : ℕ → ℕ → World B S U → World B S U → Type 0
  IsSettled l t w v =
      (v.objects ≡ w.objects)
      × (v.infos ≡ w.infos)
      × ((v.loops l).list_timers ≡ (w.loops l).list_timers)
      × ((v.timers t).active ≡ (w.timers t).active)

  settle-IsSettled :
      (l t : ℕ) (w : World B S U) (r : World B S U × Progress (Unit {0}) B)
      → IsSame l w r.0
      → IsSettled l t w (settle io run t r).0
  unfolding settle
  settle-IsSettled l t w (v, returned s) (o, i, m, e) = (
    o,
    i,
    m,
    ap (λ (x : Timer B). x.active) (update_self v.timers t _)
        ∙ ap (λ (f : ℕ → Timer B). (f t).active) e,
  )
  settle-IsSettled l t w (v, waiting f cs n) (o, i, m, e) =
      (o, i, m, ap (λ (f : ℕ → Timer B). (f t).active) e)
  settle-IsSettled l t w (v, thrown x) (o, i, m, e) =
      (o, i, m, ap (λ (f : ℕ → Timer B). (f t).active) e)

  emit_timeout-IsSettled :
      (l self i : ℕ) (w : World B S U)
      → IsSettled l (w.infos i).timer w (emit_timeout io run self i w).0
  unfolding emit_timeout
  emit_timeout-IsSettled l self i w =
      let t = (w.infos i).timer in
      let s = (w.timers t).signal_timeout in
      settle-IsSettled l t w (emit (host io run) self tt s w) (
        emit-keeps (host io run) (IsSame l w) (IsSame-IsKept l w) self tt s w
          (refl, refl, refl, refl))

  -- The rest of the handler of a one-shot timer.
  one_shot :
      (l self i : ℕ) (w : World B S U)
      → (w.infos i).repeat ≡ false
      → let t = (w.infos i).timer in
        let v = (emit_timeout io run self i (mark_timeout io run i w)).0 in
        ((v.timers t).active ≡ false)
        × (v.objects ≡ w.objects)
        × (v.infos ≡ w.infos)
        × ((v.loops l).list_timers ≡ (w.loops l).list_timers)
  unfolding mark_timeout
  one_shot l self i w once =
      let t = (w.infos i).timer in
      let off : Timer B = record (w.timers t) { active = false } in
      let (o, n, m, a) = emit_timeout-IsSettled l self i (set_timer t off w) in
      rw (once, mark_timeout)
        (a ∙ ap (λ (x : Timer B). x.active) (update_self w.timers t off), o, n, m)

  -- The timeout of a one-shot timer, `i`, while another thread starts the timer anew.
  -- If that comes before the handler or behind it, the timer is active. If it comes between the
  -- handler's test and the line that marks the timer inactive, the timer is inactive, although its
  -- new TimerInfo waits for its timeout.
  pub restart_loses_active :
      (l i self : ℕ) (ev : StartTimer) (w : World B S U)
      → i < w.next_info
      → find_timer ev.timer_id (w.loops l).list_timers ≡ some i
      → (w.infos i).canceled ≡ false
      → (w.infos i).repeat ≡ false
      → (w.infos i).timer ≡ ev.timer
      → (w.objects ev.timer).alive ≡ true
      → let before = (handle io run self (timeout_handler i false) (start_timer io l ev w)).0 in
        let behind = start_timer io l ev (handle io run self (timeout_handler i false) w).0 in
        let between =
          (handle_timeout_between io run
            (posts l (start_timer_event ev) ∷ [])
            []
            self
            i
            false
            w).0 in
        (get_active ev.timer before ≡ true)
        × (get_active ev.timer behind ≡ true)
        × (get_active ev.timer between ≡ false)
        × IsArmed io l ev.timer_id ev.timer before
        × IsArmed io l ev.timer_id ev.timer behind
        × IsArmed io l ev.timer_id ev.timer between
  unfolding get_active steps step post_event
  restart_loses_active l i self ev w b e live once mine alive =
      let u = start_timer io l ev w in
      let v = (handle io run self (timeout_handler i false) w).0 in
      let x =
        (handle_timeout_between io run (posts l (start_timer_event ev) ∷ []) [] self i false w).0 in
      let (active, armed, objects, timer, repeat) = start_timer_starts io l i ev w alive in
      let silent = (stale_timeout io run [] l i self ev false w b e alive).0 in
      let there : (w.objects (w.infos i).timer).alive ≡ true =
        ap (λ t. (w.objects t).alive) mine ∙ alive in
      let whole : v ≡ (emit_timeout io run self i (mark_timeout io run i w)).0 =
        ap (λ r. r.0)
          (sym (handle_timeout_between_lem io run self i false w)
            ∙ goes_on io run [] self i w live there) in
      let same : v.objects ≡ w.objects = ap (λ y. y.objects) whole ∙ (one_shot l self i w once).1 in
      let later = start_timer_starts io l i ev v (ap (λ f. (f ev.timer).alive) same ∙ alive) in
      let part : x ≡ (emit_timeout io run self i (mark_timeout io run i u)).0 =
        ap (λ r. r.0) (goes_on io run (posts l (start_timer_event ev) ∷ []) self i w live there) in
      let rest = one_shot l self i u (repeat b ∙ once) in
      (
        ap (λ r. (r.0.timers ev.timer).active) silent ∙ active,
        later.0,
        ap (λ y. (y.timers ev.timer).active) part
            ∙ ap (λ t. ((emit_timeout io run self i (mark_timeout io run i u)).0.timers t).active)
                (sym (timer b ∙ mine))
            ∙ rest.0,
        rw silent armed,
        later.1,
        rw (part, rest.2, rest.3) armed,
      )
