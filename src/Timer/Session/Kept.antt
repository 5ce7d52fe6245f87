-- ===== src/Timer/Session/Kept.antt =====
-- What Emit, and the slots that it has posted to its own loop, leave as it is.
use native.Mathlib.Nat.{zero-add, suc-add}
use ks_core.Base.{
  ℕ, suc, ◌+◌, ◌≡◌, refl, ap, ◌∙◌, false, some, List, [], ◌∷◌, length, map, update_self, ◌==◌,
  ==_iff, Bool-cases, inl, inr,
}
use ks_core.Event.{Callback, slot_event, blocking_slot_event}
use ks_core.Host.{Result, ok}
use ks_core.Signal.Invariant.{IsKept}
use ks_core.Asio.{IoService, Queue, Waits}
use ks_core.World.{Handler, event_handler, timeout_handler, EventLoop, World}
use ks_core.EventLoop.{ensure_active}
use ks_core.EventLoop.Post.{host, post, post_event, set_service}
use ks_core.EventLoop.Handlers.{idle, poll}
use ks_core.EventLoop.Posting.{IsTame, noted, poll_slot, poll_empty}
use ks_core.EventLoop.Delivered.{IsReady, post-IsReady}

module _ {B S U : Type 0} (io : IoService (Handler B) S) (q : Queue io) (ws : Waits io q)
    (run : B → World B S U → World B S U × Result) (note : B → U → U) (tame : IsTame note run)
    (self k i : ℕ) where
  -- The objects and timers are those of `u`, loop `k` has its timers, and the timer `i` waits.
  pub record IsWaiting (u v : World B S U) : Type 0 where
    pub objects : v.objects ≡ u.objects
    pub infos : v.infos ≡ u.infos
    pub timers : v.timers ≡ u.timers
    pub list_timers : (v.loops k).list_timers ≡ (u.loops k).list_timers
    pub waits : ws.waiter (v.loops k).service i ≡ some (timeout_handler i)

  post-IsWaiting :
      (l : ℕ) (x : Handler B) (u v : World B S U) → IsWaiting u v → IsWaiting u (post io l x v)
  unfolding post
  post-IsWaiting l x u v p = elim (Bool-cases (l == k)) [
    | inr off ↦ record {
      objects = p.objects;
      infos = p.infos;
      timers = p.timers;
      list_timers = rw off p.list_timers;
      waits = rw off p.waits;
    }
    | inl at ↦ record {
      objects = p.objects;
      infos = p.infos;
      timers = p.timers;
      list_timers = rw (at, (==_iff l k).0 at) p.list_timers;
      waits = rw (at, (==_iff l k).0 at) (ws.post_waits x i (v.loops k).service ∙ p.waits);
    }
  ]

  -- And the loop's thread may run it, with nothing but events in its queue.
  abbrev pub Emits : World B S U → World B S U → Type 0
  Emits u v = IsReady io q self (v.loops k) × IsWaiting u v

  pub Emits-IsKept : (u : World B S U) → IsKept (host io run) (Emits u)
  unfolding post_event
  Emits-IsKept u = record {
    kept_run = λ b v p. rw (tame b v) (
      p.0,
      record {
        objects = p.1.objects;
        infos = p.1.infos;
        timers = p.1.timers;
        list_timers = p.1.list_timers;
        waits = p.1.waits;
      },
    );
    kept_slot = λ l c v p. (
      post-IsReady io q self l k (slot_event c) v p.0,
      post-IsWaiting l (event_handler (slot_event c)) u v p.1,
    );
    kept_blocking = λ l f c v p. (
      post-IsReady io q self l k (blocking_slot_event c f) v p.0,
      post-IsWaiting l (event_handler (blocking_slot_event c f)) u v p.1,
    );
    kept_flag = λ v p. (
      p.0,
      record {
        objects = p.1.objects;
        infos = p.1.infos;
        timers = p.1.timers;
        list_timers = p.1.list_timers;
        waits = p.1.waits;
      },
    );
  }

  abbrev slots : List (Callback B) → List (Handler B)
  slots = map λ c. event_handler (slot_event c)

  -- A loop that has nothing to do.
  pub record IsIdle (w : World B S U) : Type 0 where
    pub queue : q.queued (w.loops k).service ≡ []
    pub open' : q.stopped (w.loops k).service ≡ false
    pub active : ensure_active self (w.loops k) ≡ ok

  -- The loop's thread at slots that are queued: it calls them, and comes back.
  pub poll-IsWaiting :
      (cs : List (Callback B)) (n : ℕ) (u w : World B S U)
      → q.stopped (w.loops k).service ≡ false
      → q.queued (w.loops k).service ≡ slots cs
      → ensure_active self (w.loops k) ≡ ok
      → IsWaiting u w
      → (w' : World B S U) × (poll io run (length cs + suc n) self k w ≡ (w', idle))
        × IsWaiting u w'
        × IsIdle w'
        × (w'.user ≡ noted note w.objects cs w.user)
  unfolding ensure_active
  poll-IsWaiting [] n u w o e a p = (
    w,
    rw zero-add (poll_empty io run note tame q n self k w e),
    p,
    record { queue = e; open' = o; active = a },
    refl,
  )
  poll-IsWaiting (c ∷ cs) n u w o e a p =
      let (t, taken, left, still) = q.next_ready (w.loops k).service _ _ o e in
      let v : World B S U = record (set_service io k t w) {
        user = noted note w.objects (c ∷ []) w.user;
      } in
      let at : v.loops k ≡ record (w.loops k) { service = t } = update_self w.loops k _ in
      let (w', same, p', end, user) =
        poll-IsWaiting cs n u v (ap (λ (x : EventLoop S). q.stopped x.service) at ∙ still)
          (ap (λ (x : EventLoop S). q.queued x.service) at ∙ left) (ap (ensure_active self) at ∙ a)
          (record {
            objects = p.objects;
            infos = p.infos;
            timers = p.timers;
            list_timers = ap (λ (x : EventLoop S). x.list_timers) at ∙ p.list_timers;
            waits =
                ap (λ (x : EventLoop S). ws.waiter x.service i) at
                ∙ ws.next_waits _ i (w.loops k).service t taken
                ∙ p.waits;
          }) in
      (
        w',
        rw suc-add (poll_slot io run note tame c (length cs + suc n) self k w t taken ∙ same),
        p',
        end,
        user,
      )
