-- ===== src/EventLoop/Delivered.antt =====
-- From `Emit` on one thread to the slot on another: Signal::Emit (ks/KsSignal.hpp), PostEvent and
-- ProcessEvents (ks/KsEventLoop.cpp) together, for user code that changes only what belongs to the
-- user.
use mathlib.Core.List.{append-nil, append_assoc, map-append}
use ks_core.Base.{
  ℕ, suc, ◌+◌, ◌^◌, ◌<◌, ◌≡◌, ◌≢◌, refl, sym, ap, ◌∙◌, Bool, true, false, ◌&&◌, none, List, [], ◌∷◌,
  ◌++◌, ◌==◌, ==_iff, map, length, All, keep_if, if◌then◌else◌, Bool-cases, inl, inr,
}
use ks_core.Event.{Event, Callback, slot_event, blocking_slot_event}
use ks_core.Host.{Result, ok}
use ks_core.Signal.{blocking, ManagedConnection, Signal}
use ks_core.Signal.Emit.{bind, returned, emit}
use ks_core.Signal.Delivery.{is_queued, IsGuarded, emit_delivers, posts, calls}
use ks_core.Signal.Invariant.{IsKept, emit-keeps}
use ks_core.Asio.{IoService, Queue}
use ks_core.World.{Handler, event_handler, EventLoop, Object, World}
use ks_core.EventLoop.{ensure_active}
use ks_core.EventLoop.Post.{host, post, post_event}
use ks_core.EventLoop.Handlers.{idle, process_events}
use ks_core.EventLoop.Posting.{IsTame, lives, noted, poll-slots, poll_empty}
use ks_core.EventLoop.Interface.{host-Quiet, events, events-append}

module _ {B S : Type 0} (io : IoService (Handler B) S) (q : Queue io) (self : ℕ) where
  -- Nothing but events waits in the queue of the loop, and thread `self` may run it.
  pub record IsReady (v : EventLoop S) : Type 0 where
    pub open' : q.stopped v.service ≡ false
    pub active : ensure_active self v ≡ ok
    pub only_events : q.queued v.service ≡ map event_handler (events (q.queued v.service))

  pub posted-IsReady :
      (e : Event B) (v : EventLoop S)
      → IsReady v
      → IsReady (record v { service = io.post (event_handler e) v.service })
  unfolding ensure_active
  posted-IsReady e v r = record {
    open' = q.post_stopped (event_handler e) v.service ∙ r.open';
    active = r.active;
    only_events =
        let old = q.queued v.service in
        q.post_queued (event_handler e) v.service
        ∙ ap (λ xs. xs ++ event_handler e ∷ []) r.only_events
        ∙ sym (map-append event_handler (events old) (e ∷ []))
        ∙ ap (map event_handler) (
            sym (events-append old (event_handler e ∷ []))
            ∙ ap events (sym (q.post_queued (event_handler e) v.service)));
  }

  module _ {U : Type 0} where
    pub post-IsReady :
        (l k : ℕ) (e : Event B) (w : World B S U)
        → IsReady (w.loops k)
        → IsReady ((post io l (event_handler e) w).loops k)
    unfolding post
    post-IsReady l k e w r = elim (Bool-cases (l == k)) [
      | inl at ↦ rw (at, (==_iff l k).0 at) (posted-IsReady e (w.loops k) r)
      | inr off ↦ rw off r
    ]

module _ {A B : Type 0} (alive : ℕ → Bool) (loop : ℕ → ℕ) (args : A) (k : ℕ) where
  abbrev is_posted : ManagedConnection A B → Bool
  is_posted c = alive c.context && is_queued c.type && loop c.context == k

  -- The calls that `Emit` posts to loop `k`: one for each queued connection with a living context
  -- there, in order.
  abbrev pub callbacks : List (ManagedConnection A B) → List (Callback B)
  callbacks [] = []
  callbacks (c ∷ cs) =
      let rest = callbacks cs in if is_posted c then bind c.fn args ∷ rest else rest

  pub posts-callbacks :
      (cs : List (ManagedConnection A B))
      → posts alive loop args k cs ≡ map slot_event (callbacks cs)
  posts-callbacks [] = refl
  posts-callbacks (c ∷ cs) = elim (Bool-cases (is_posted c)) [
    | inl e ↦ rw e (ap (◌∷◌ (slot_event (bind c.fn args))) (posts-callbacks cs))
    | inr e ↦ rw e (posts-callbacks cs)
  ]

and_first : (a b c : Bool) → (a && b && c) ≡ true → a ≡ true
and_first true b c e = refl
and_first false b c e = cc

pub map-slots :
    {B : Type 0} (cs : List (Callback B))
    → map (λ (e : Event B). event_handler e) (map (λ c. slot_event c) cs)
      ≡ map (λ c. event_handler (slot_event c)) cs
map-slots [] = refl
map-slots (c ∷ cs) = ap (◌∷◌ (event_handler (slot_event c))) (map-slots cs)

module _ {B U : Type 0} (note : B → U → U) (log : U → List B)
    (logs : (b : B) (u : U) → log (note b u) ≡ log u ++ b ∷ []) (objects : ℕ → Object) where
  pub log-noted :
      (cs : List (Callback B)) (u : U)
      → All (λ c. lives note objects c.guard ≡ true) cs
      → log (noted note objects cs u) ≡ log u ++ map (λ c. c.body) cs
  log-noted [] u live = sym (append-nil (log u))
  log-noted (c ∷ cs) u (live, rest) = rw live (
      log-noted cs (note c.body u) rest
      ∙ ap (λ xs. xs ++ map (λ c. c.body) cs) (logs c.body u)
      ∙ append_assoc (log u) (c.body ∷ []) (map (λ c. c.body) cs))

  pub callbacks-live :
      {A : Type 0} (loop : ℕ → ℕ) (args : A) (k : ℕ) (cs : List (ManagedConnection A B))
      → All (λ c. (c.type ≢ blocking) × IsGuarded c) cs
      → All
          (λ c. lives note objects c.guard ≡ true)
          (callbacks (λ o. (objects o).alive) loop args k cs)
  callbacks-live loop args k [] g = tt
  callbacks-live loop args k (c ∷ cs) (g, rest) =
      elim (Bool-cases (is_posted (λ o. (objects o).alive) loop args k c)) [
        | inl e ↦ rw e (rw g.1 (and_first _ _ _ e), callbacks-live loop args k cs rest)
        | inr e ↦ rw e (callbacks-live loop args k cs rest)
      ]

module _ {B S U : Type 0} (io : IoService (Handler B) S) (q : Queue io)
    (run : B → World B S U → World B S U × Result) (note : B → U → U) (tame : IsTame note run) where
  abbrev IsWaiting : ℕ → ℕ → (ℕ → Object) → World B S U → Type 0
  IsWaiting self k objects w = IsReady io q self (w.loops k) × (w.objects ≡ objects)

  IsWaiting-IsKept :
      (self k : ℕ) (objects : ℕ → Object) → IsKept (host io run) (IsWaiting self k objects)
  unfolding post_event post
  IsWaiting-IsKept self k objects = record {
    kept_run = λ b w p. rw (tame b w) p;
    kept_slot = λ l c w p. (post-IsReady io q self l k (slot_event c) w p.0, p.1);
    kept_blocking = λ l f c w p. (post-IsReady io q self l k (blocking_slot_event c f) w p.0, p.1);
    kept_flag = λ w p. p;
  }

  module _ {A : Type 0} (log : U → List B)
      (logs : (b : B) (u : U) → log (note b u) ≡ log u ++ b ∷ []) where
    -- `Emit`, on any thread, of a signal with direct and queued connections as Connect makes them,
    -- fewer than 2 ^ 32 managed ones, and then ProcessEvents on the thread that has started loop
    -- `k`, whose queue was empty: both return, and between them every unmanaged connection, every
    -- direct connection with a living context, and every queued connection with a living context
    -- on loop `k` has been called exactly once, in this order, and in the order of the connections
    -- within each kind. The connections with dead contexts are gone from the signal, and the queue
    -- of loop `k` is empty again.
    pub process_events-emit :
        (s : Signal A B) (args : A) (emitter self k n : ℕ) (w : World B S U)
        → All (λ c. c.fn.guard ≡ none) s.unmanaged
        → All (λ c. (c.type ≢ blocking) × IsGuarded c) s.managed
        → length s.managed < 2 ^ 32
        → ensure_active self (w.loops k) ≡ ok
        → q.stopped (w.loops k).service ≡ false
        → q.queued (w.loops k).service ≡ []
        → let alive : ℕ → Bool = λ o. (w.objects o).alive in
          let loop : ℕ → ℕ = λ o. (w.objects o).event_loop in
          let mine = callbacks alive loop args k s.managed in
          let r = emit (host io run) emitter args s w in
          (w' : World B S U) × (r.1
            ≡ returned (record s { managed = keep_if (λ c. alive c.context) s.managed }))
          × (process_events io run (length mine + suc n) self k r.0 ≡ (w', idle))
          × (log w'.user
              ≡ log w.user
                ++ (map (λ c. c.fn.slot args) s.unmanaged ++ calls alive loop args s.managed)
                ++ map (λ c. c.body) mine)
          × (q.queued (w'.loops k).service ≡ [])
    unfolding process_events
    process_events-emit s args emitter self k n w plain guarded small active o e =
        let alive : ℕ → Bool = λ o. (w.objects o).alive in
        let loop : ℕ → ℕ = λ o. (w.objects o).event_loop in
        let mine = callbacks alive loop args k s.managed in
        let v = (emit (host io run) emitter args s w).0 in
        let d =
          emit_delivers (host io run) (host-Quiet io q run note tame log logs) emitter args s w k
            plain guarded small in
        let (ready, same) =
          emit-keeps (host io run) (IsWaiting self k w.objects) (IsWaiting-IsKept self k w.objects)
            emitter args s w (first, refl) in
        let queue : q.queued (v.loops k).service
            ≡ map (λ c. event_handler (slot_event c)) mine ++ [] =
          ready.only_events
          ∙ ap (map event_handler) (
              d.1
              ∙ ap (λ xs. events xs ++ posts alive loop args k s.managed) e
              ∙ posts-callbacks alive loop args k s.managed)
          ∙ map-slots mine
          ∙ sym (append-nil (map (λ c. event_handler (slot_event c)) mine)) in
        let (w', ends, ran) =
          poll-slots io run note tame q mine [] (suc n) self k v ready.open' queue in
        (
          w',
          d.0,
          rw (ready.active, process_events)
              (ends ∙ poll_empty io run note tame q n self k w' ran.queue),
          ap log ran.user
              ∙ ap (λ objects. log (noted note objects mine v.user)) same
              ∙ log-noted note log logs w.objects mine v.user
                  (callbacks-live note log logs w.objects loop args k s.managed guarded)
              ∙ ap (λ xs. xs ++ map (λ c. c.body) mine) d.2,
          ran.queue,
        )
      where
        first : IsReady io q self (w.loops k)
        first = record {
          open' = o;
          active = active;
          only_events = e ∙ sym (ap (λ xs. map event_handler (events xs)) e);
        }
