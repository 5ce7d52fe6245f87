-- ===== src/EventLoop/Handshake.antt =====
-- A blocking signal from one thread to another and back: Signal::Emit (ks/KsSignal.hpp) posts a
-- BlockingSlotEvent (ks/KsEvent.hpp) and waits, the receivers' thread runs ProcessEvents
-- (ks/KsEventLoop.cpp), and Emit goes on. User code changes only what belongs to the user.
mod Turns
mod Held
mod Steps
mod Served
mod Tests
use native.Mathlib.Nat.{zero-add}
use ks_core.Base.{
  ℕ, ◌+◌, ◌-◌, ◌^◌, ◌<◌, ◌≤◌, ◌≡◌, ◌≢◌, refl, sym, ap, ◌∙◌, Bool, true, false, List, [], ◌++◌, map,
  length, All, keep_if, arith,
}
use ks_core.Event.{Callback, slot_event}
use ks_core.Host.{Result, ok}
use ks_core.Signal.{queued, UnmanagedConnection, Signal}
use ks_core.Signal.Emit.{bind, Progress, returned, emit, emit_managed, remove_expired, after_walk}
use ks_core.Signal.Blocking.{finish}
use ks_core.Asio.{IoService, Queue}
use ks_core.World.{Handler, event_handler, EventLoop, World}
use ks_core.EventLoop.{ensure_active}
use ks_core.EventLoop.Post.{host}
use ks_core.EventLoop.Handlers.{process_events}
use ks_core.EventLoop.Posting.{IsTame, noted}
use ks_core.Signal.Expiry.{dead, remove_expired-living}
use ks_core.EventLoop.Handshake.Turns.{called, kept}
use ks_core.EventLoop.Handshake.Held.{noted-append, Holds}
use ks_core.EventLoop.Handshake.Served.{walk-Served}
use ks_core.EventLoop.Handshake.Steps.{emit_unmanaged_tame}

active-parts :
    {S : Type 0} (self : ℕ) (v : EventLoop S)
    → ensure_active self v ≡ ok
    → (v.started ≡ true) × (v.work ≡ true) × (v.thread_id ≡ self)
unfolding ensure_active
active-parts self v e = ground (arith, e)

-- The calls of the unmanaged connections.
abbrev pub bound : {A B : Type 0} → A → List (UnmanagedConnection A B) → List (Callback B)
bound args cs = map (λ c. bind c.fn args) cs

module _ {A B S U : Type 0} (io : IoService (Handler B) S) (q : Queue io)
    (run : B → World B S U → World B S U × Result) (note : B → U → U) (tame : IsTame note run) where
  -- `Emit` on one thread, of a signal whose managed connections are on one loop `k`, started by
  -- another thread, its queue empty; whenever `Emit` waits for the flag of a blocking slot, that
  -- thread calls ProcessEvents. Then `Emit` returns, however many of the connections are blocking.
  -- Called are, each once: the unmanaged connections, in order; and for each managed connection
  -- with a living context, in order, a direct slot at its turn, a blocking slot at its turn but
  -- behind the queued slots that had come before it since the last blocking one. The queued slots
  -- behind the last blocking one are what loop `k` still holds, in order. The connections with dead
  -- contexts are gone from the signal.
  pub finish-process_events :
      (emitter self k m fuel : ℕ) (s : Signal A B) (args : A) (w : World B S U)
      → self ≢ emitter
      → ensure_active self (w.loops k) ≡ ok
      → q.stopped (w.loops k).service ≡ false
      → q.queued (w.loops k).service ≡ []
      → All (λ c. (w.objects c.context).event_loop ≡ k) s.managed
      → length s.managed < 2 ^ 32
      → length s.managed + 2 ≤ m
      → length s.managed ≤ fuel
      → let alive : ℕ → Bool = λ o. (w.objects o).alive in
        let others : ℕ → World B S U → World B S U = λ f w. (process_events io run m self k w).0 in
        (w' : World B S U) × (finish
            (host io run)
            emitter
            args
            fuel
            others
            s
            (emit (host io run) emitter args s w)
          ≡ (w', returned (record s { managed = keep_if (λ c. alive c.context) s.managed })))
        × (w'.user
            ≡ noted note w.objects
                (bound args s.unmanaged ++ called alive args [] s.managed)
                w.user)
        × (q.queued (w'.loops k).service
            ≡ map (λ c. event_handler (slot_event c)) (kept alive args [] s.managed))
  unfolding emit
  finish-process_events emitter self k m fuel s args w apart active o e here few room long =
      let mine = bound args s.unmanaged in
      let w1 : World B S U = record w { user = noted note w.objects mine w.user } in
      let v : Holds io q run note tame emitter self k apart w.objects []
          (noted note w.objects mine w.user) w1 =
        record {
          queue = e;
          open' = o;
          started = (active-parts self (w.loops k) active).0;
          thread = (active-parts self (w.loops k) active).2;
          work = (active-parts self (w.loops k) active).1;
          objects' = refl;
          user = refl;
        } in
      let plain =
        emit_unmanaged_tame io q run note tame emitter self k apart w.objects args s.unmanaged w in
      let (w', same, held) =
        walk-Served io q run note tame emitter self k apart w.objects args m s s.managed [] fuel 0 _
          w1 here long (omega arith) (omega arith) v in
      let rest : World B S U × Progress A B → World B S U × Progress A B =
        finish (host io run) emitter args fuel (λ f w. (process_events io run m self k w).0) s in
      let clean : remove_expired (host io run) emitter args s
            (0 + dead (λ o. (w.objects o).alive) s.managed) w'
          ≡ record s { managed = keep_if (λ c. (w.objects c.context).alive) s.managed } =
        rw zero-add (
          remove_expired-living (host io run) emitter args (λ o. (w.objects o).alive) s w'
            (ap (λ o x. (o x).alive) held.objects')) in
      (
        w',
        rw (ap (λ p. p.1) plain, emit)
            (ap
                (λ p. rest (
                  after_walk (host io run) emitter args s
                    (emit_managed (host io run) emitter args s.managed 0 p.0)))
                plain
              ∙ same
              ∙ ap (λ z. (w', returned z)) clean),
        held.user
            ∙ sym (
                noted-append note w.objects mine
                  (called (λ o. (w.objects o).alive) args [] s.managed) w.user),
        held.queue,
      )
