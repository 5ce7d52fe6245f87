-- ===== src/EventLoop/Handshake/Served.antt =====
-- Signal::Emit (ks/KsSignal.hpp) over its managed connections, while another thread runs the
-- receivers' loop whenever Emit waits.
use native.Mathlib.Nat.{zero-add}
use ks_core.Base.{
  ℕ, zero, suc, ◌+◌, ◌^◌, ◌%◌, ◌<◌, ◌≤◌, ◌≡◌, ◌≢◌, refl, sym, ap, ◌∙◌, false, List, [], ◌∷◌, ◌++◌,
  map, length, All, Bool-cases, inl, inr, update, arith, length-append,
}
use ks_core.Event.{Callback, blocking_slot_event}
use ks_core.Host.{Result}
use ks_core.Signal.{ManagedConnection, Signal, ConnectionType-cases}
use ks_core.Signal.Emit.{
  bind, waits, Progress, returned, emit_managed, remove_expired, after_walk, resume,
}
use ks_core.Signal.Expiry.{dead}
use ks_core.Signal.Blocking.{finish}
use ks_core.Asio.{IoService, Queue}
use ks_core.World.{Handler, event_handler, Object, World}
use ks_core.EventLoop.Post.{host}
use ks_core.EventLoop.Handlers.{process_events}
use ks_core.EventLoop.Posting.{IsTame, noted}
use ks_core.EventLoop.Handshake.Turns.{called, kept}
use ks_core.EventLoop.Handshake.Held.{
  noted-append, slot, Holds, post-Holds, queued-Holds, called-Holds, flag-Holds, serve,
}
use ks_core.EventLoop.Handshake.Steps.{at_dead, at_direct, at_queued, at_blocking}

module _ {B S U : Type 0} (io : IoService (Handler B) S) (q : Queue io)
    (run : B → World B S U → World B S U × Result) (note : B → U → U) (tame : IsTame note run)
    (emitter self k : ℕ) (apart : self ≢ emitter) (objects : ℕ → Object) where
  module _ {A : Type 0} (args : A) (m : ℕ) (s : Signal A B) where
    -- While Emit waits, the thread of loop `k` calls ProcessEvents.
    abbrev pub others : ℕ → World B S U → World B S U
    others f w = (process_events io run m self k w).0

    abbrev pub walk : List (ManagedConnection A B) → ℕ → World B S U → World B S U × Progress A B
    walk cs n w =
        after_walk (host io run) emitter args s (emit_managed (host io run) emitter args cs n w)

    abbrev finished : ℕ → World B S U × Progress A B → World B S U × Progress A B
    finished fuel r = finish (host io run) emitter args fuel others s r

    -- What becomes of the walk over the connections `cs`.
    abbrev pub Served :
        List (Callback B)
        → List (ManagedConnection A B)
        → ℕ
        → ℕ
        → U
        → World B S U × Progress A B
        → Type 0
    Served pend cs fuel n u r =
        (w' : World B S U) × (finished fuel r ≡ (
          w',
          returned (
              remove_expired (host io run) emitter args s (n + dead (λ o. (objects o).alive) cs)
                w'),
        ))
        × Holds io q run note tame emitter self k apart objects
            (map slot (kept (λ o. (objects o).alive) args pend cs))
            (noted note objects (called (λ o. (objects o).alive) args pend cs) u) w'

    finish_returned :
        (fuel : ℕ) (w : World B S U) (t : Signal A B)
        → finished fuel (w, returned t) ≡ (w, returned t)
    unfolding finish
    finish_returned zero w t = refl
    finish_returned (suc fuel) w t = refl

    walk_end :
        (n : ℕ) (w : World B S U)
        → walk [] n w ≡ (w, returned (remove_expired (host io run) emitter args s n w))
    unfolding after_walk emit_managed
    walk_end n w = refl

    -- While Emit waits for the flag of a blocking slot, the thread of loop `k` runs what was queued
    -- and the slot; then Emit goes on.
    finish_blocking :
        (x : Callback B) (cs : List (ManagedConnection A B)) (pend : List (Callback B))
        (fuel f n : ℕ) (u : U)
        → (w : World B S U)
        → Holds io q run note tame emitter self k apart objects
            (map slot pend ++ event_handler (blocking_slot_event x f) ∷ [])
            u
            w
        → length pend + 2 ≤ m
        → (w' : World B S U) × (finished
              (suc fuel)
              (after_walk (host io run) emitter args s (w, waits f cs n))
            ≡ finished fuel (walk cs n w'))
          × Holds io q run note tame emitter self k apart objects []
              (noted note objects (pend ++ x ∷ []) u)
              w'
    unfolding finish after_walk resume process_events emit_managed
    finish_blocking x cs pend fuel f n u w v room =
        let (w', ends, set, served) =
          serve io q run note tame emitter self k apart objects pend x f m u w v room in
        (w', rw ends (rw set refl), served)

    counted :
        (a b fuel : ℕ) (r : World B S U × Progress A B) (xs : List (Handler B)) (u : U)
        → a ≡ b
        → (w : World B S U) × (finished fuel r
            ≡ (w, returned (remove_expired (host io run) emitter args s a w)))
          × Holds io q run note tame emitter self k apart objects xs u w
        → (w : World B S U) × (finished fuel r
            ≡ (w, returned (remove_expired (host io run) emitter args s b w)))
          × Holds io q run note tame emitter self k apart objects xs u w
    counted a b fuel r xs u e t = rw (sym e) t

    pub walk-Served :
        (cs : List (ManagedConnection A B)) (pend : List (Callback B)) (fuel n : ℕ) (u : U)
        (w : World B S U)
        → All (λ c. (objects c.context).event_loop ≡ k) cs
        → length cs ≤ fuel
        → length pend + length cs + 2 ≤ m
        → n + length cs < 2 ^ 32
        → Holds io q run note tame emitter self k apart objects (map slot pend) u w
        → Served pend cs fuel n u (walk cs n w)
    walk-Served [] pend fuel n u w here long room few v = (
      w,
      ap (finished fuel) (walk_end n w)
          ∙ finish_returned fuel w _
          ∙ ap (λ n. (w, returned (remove_expired (host io run) emitter args s n w))) (omega arith),
      v,
    )
    walk-Served (c ∷ cs) pend zero n u w here long room few v = absurd (omega arith)
    walk-Served (c ∷ cs) pend (suc fuel) n u w here long room few v =
        elim (Bool-cases (objects c.context).alive) [
          | inr gone ↦
              rw
                (
                  at_dead io q run note tame emitter self k apart objects args c cs n w v.objects'
                      gone,
                  gone,
                )
                (counted _ _ _ _ _ _ (omega arith) (
                  walk-Served cs pend (suc fuel) ((n + 1) % 2 ^ 32) u w here.1 (omega arith)
                    (omega arith) (omega arith) v))
          | inl live ↦ elim (ConnectionType-cases c.type) [
            | inl d ↦
                rw
                  (
                    at_direct io q run note tame emitter self k apart objects args c cs n w
                        v.objects' live d,
                    live,
                    d,
                    zero-add,
                  )
                  (walk-Served cs pend (suc fuel) n _ _ here.1 (omega arith) (omega arith)
                    (omega arith)
                    (called-Holds io q run note tame emitter self k apart objects (bind c.fn args) _
                      u w v))
            | inr (inl d) ↦
                rw
                  (
                    at_queued io q run note tame emitter self k apart objects args c cs n w
                        v.objects' live here.0 d,
                    live,
                    d,
                    zero-add,
                  )
                  (walk-Served cs (pend ++ bind c.fn args ∷ []) (suc fuel) n u _ here.1
                    (omega arith) (omega (arith, length-append pend (bind c.fn args ∷ [])))
                    (omega arith)
                    (queued-Holds io q run note tame emitter self k apart objects (bind c.fn args)
                      pend u w v))
            | inr (inr d) ↦
                let x = bind c.fn args in
                let v0 =
                  flag-Holds io q run note tame emitter self k apart objects _ u w
                    (update w.flags w.next_flag false) (suc w.next_flag) v in
                let (w', ends, then') =
                  finish_blocking x cs pend fuel w.next_flag n u _
                    (post-Holds io q run note tame emitter self k apart objects
                      (blocking_slot_event x w.next_flag) _ u _ v0)
                    (omega arith) in
                let (w2, same, v2) =
                  walk-Served cs [] fuel n _ w' here.1 (omega arith) (omega arith) (omega arith)
                    then' in
                rw
                  (
                    at_blocking io q run note tame emitter self k apart objects args c cs n w
                        v.objects' live here.0 d v.started v.thread,
                    live,
                    d,
                    zero-add,
                  )
                  (
                    w2,
                    ends ∙ same,
                    rw
                        (noted-append note objects (pend ++ x ∷ [])
                          (called (λ o. (objects o).alive) args [] cs) u)
                        v2,
                  )
          ]
        ]
