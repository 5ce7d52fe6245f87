-- ===== src/EventLoop/Handshake/Steps.antt =====
-- Signal::Emit (ks/KsSignal.hpp) at one connection, by its type, where user code changes only what
-- belongs to the user.
use ks_core.Base.{
  ℕ, suc, ◌+◌, ◌^◌, ◌%◌, ◌≡◌, ◌≢◌, refl, ap, ◌∙◌, true, false, List, [], ◌∷◌, ◌==◌, map, update,
  arith,
}
use ks_core.Event.{blocking_slot_event}
use ks_core.Host.{Result, ok}
use ks_core.Signal.{direct, queued, blocking, ManagedConnection, UnmanagedConnection}
use ks_core.Signal.Emit.{bind, waits, direct_invoke, emit_managed, emit_unmanaged}
use ks_core.Asio.{IoService, Queue}
use ks_core.World.{Handler, event_handler, Object, World}
use ks_core.EventLoop.{get_state}
use ks_core.EventLoop.Post.{host, post, post_event}
use ks_core.EventLoop.Posting.{IsTame, noted, call_tame}
use ks_core.EventLoop.Handshake.Held.{slot}

module _ {B S U : Type 0} (io : IoService (Handler B) S) (q : Queue io)
    (run : B → World B S U → World B S U × Result) (note : B → U → U) (tame : IsTame note run)
    (emitter self k : ℕ) (apart : self ≢ emitter) (objects : ℕ → Object) where
  module _ {A : Type 0} (args : A) where
    module _ (c : ManagedConnection A B) (cs : List (ManagedConnection A B)) (n : ℕ)
        (w : World B S U) (same : w.objects ≡ objects) where
      pub at_dead :
          (objects c.context).alive ≡ false
          → emit_managed (host io run) emitter args (c ∷ cs) n w
            ≡ emit_managed (host io run) emitter args cs ((n + 1) % 2 ^ 32) w
      unfolding emit_managed
      at_dead gone = rw (ap (λ f. (f c.context).alive) same ∙ gone, emit_managed) refl

      pub at_direct :
          (objects c.context).alive ≡ true
          → c.type ≡ direct
          → emit_managed (host io run) emitter args (c ∷ cs) n w
            ≡ emit_managed
                (host io run)
                emitter
                args
                cs
                n
                (record w { user = noted note w.objects (bind c.fn args ∷ []) w.user })
      unfolding emit_managed direct_invoke
      at_direct live d =
          let r = call_tame io run note tame (bind c.fn args) w in
          rw (ap (λ f. (f c.context).alive) same ∙ live, d, emit_managed)
            (rw (ap (λ p. p.1) r, direct_invoke)
              (ap (λ p. emit_managed (host io run) emitter args cs n p.0) r))

      pub at_queued :
          (objects c.context).alive ≡ true
          → (objects c.context).event_loop ≡ k
          → c.type ≡ queued
          → emit_managed (host io run) emitter args (c ∷ cs) n w
            ≡ emit_managed (host io run) emitter args cs n (post io k (slot (bind c.fn args)) w)
      unfolding emit_managed post_event
      at_queued live at d =
          rw (ap (λ f. (f c.context).alive) same ∙ live, d, emit_managed)
            (rw (ap (λ f. (f c.context).event_loop) same ∙ at, post_event) refl)

      abbrev pub flagged : World B S U
      flagged = record w { flags = update w.flags w.next_flag false; next_flag = suc w.next_flag }

      pub at_blocking :
          (objects c.context).alive ≡ true
          → (objects c.context).event_loop ≡ k
          → c.type ≡ blocking
          → (w.loops k).started ≡ true
          → (w.loops k).thread_id ≡ self
          → emit_managed (host io run) emitter args (c ∷ cs) n w ≡ (
            post io k (event_handler (blocking_slot_event (bind c.fn args) w.next_flag)) flagged,
            waits w.next_flag cs n,
          )
      unfolding emit_managed post_event get_state
      at_blocking live at d on thread =
          let other : ((w.loops k).thread_id == emitter) ≡ false = ground (arith, thread) in
          let loop = ap (λ f. (f c.context).event_loop) same ∙ at in
          rw (ap (λ f. (f c.context).alive) same ∙ live, d, loop, on, loop, other, emit_managed)
            (rw loop (rw on refl))

    pub emit_unmanaged_tame :
        (cs : List (UnmanagedConnection A B)) (w : World B S U)
        → emit_unmanaged (host io run) emitter args cs w
          ≡ (record w { user = noted note w.objects (map (λ c. bind c.fn args) cs) w.user }, ok)
    unfolding emit_unmanaged direct_invoke
    emit_unmanaged_tame [] w = refl
    emit_unmanaged_tame (c ∷ cs) w =
        let r = call_tame io run note tame (bind c.fn args) w in
        rw (ap (λ p. p.1) r, emit_unmanaged, direct_invoke)
          (ap (λ p. emit_unmanaged (host io run) emitter args cs p.0) r
            ∙ emit_unmanaged_tame cs
                (record w { user = noted note w.objects (bind c.fn args ∷ []) w.user }))
