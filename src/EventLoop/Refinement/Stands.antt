-- ===== src/EventLoop/Refinement/Stands.antt =====
-- When a loop of ks/KsEventLoop.cpp is in a state that a mailbox stands for, and what posting,
-- Start and Stop make of it.
use mathlib.Core.List.{map-append}
use ks_core.Base.{
  ℕ, ◌≡◌, refl, sym, ap, ◌∙◌, Bool, true, false, Option, none, some, List, [], ◌∷◌, ◌++◌, map,
  if◌then◌else◌, Bool-cases, Option-cases, inl, inr, update_self,
}
use ks_core.Event.{slot_event}
use ks_core.Asio.{IoService, Queue}
use ks_core.World.{
  Handler, event_handler, stop_handler, null_thread, EventLoop, Object, World, set_loop,
}
use ks_core.EventLoop.{start, stop}
use ks_core.EventLoop.Post.{set_service, post}
use ks_core.EventLoop.Mailbox.{Item, slot_call, halt, Mailbox, take_over}

abbrev pub handler : {B : Type 0} → ℕ → Item B → Handler B
handler l (slot_call c) = event_handler (slot_event c)
handler l halt = stop_handler l

abbrev pub owned : Option ℕ → Bool
owned none = false
owned (some t) = true

abbrev pub thread_of : Option ℕ → ℕ
thread_of none = null_thread
thread_of (some t) = t

module _ {B S : Type 0} (io : IoService (Handler B) S) (q : Queue io) (l : ℕ) where
  -- The loop's state is one that a mailbox with this owner and these items stands for.
  pub record Stands (owner : Option ℕ) (items : List (Item B)) (v : EventLoop S) : Type 0 where
    pub queue : q.queued v.service ≡ map (handler l) items
    pub open' : v.started ≡ true → q.stopped v.service ≡ false
    pub started : v.started ≡ owned owner
    pub work : v.work ≡ owned owner
    pub thread : v.thread_id ≡ thread_of owner

module _ {B S U : Type 0} (io : IoService (Handler B) S) (q : Queue io) (l : ℕ)
    (objects : ℕ → Object) where
  -- The world, in which only loop `l` and the user's state matter.
  abbrev pub Refines : Mailbox B U → World B S U → Type 0
  Refines m w =
      Stands io q l m.owner m.items (w.loops l) × (w.objects ≡ objects) × (w.user ≡ m.user)

  put :
      (o : Option ℕ) (xs : List (Item B)) (v : EventLoop S) (w : World B S U)
      → Stands io q l o xs v
      → Stands io q l o xs ((set_loop l v w).loops l)
  put o xs v w s = rw (update_self w.loops l v) s

  pub post-Refines :
      (x : Item B) (m : Mailbox B U) (w : World B S U)
      → Refines m w
      → Refines (record m { items = m.items ++ x ∷ [] }) (post io l (handler l x) w)
  unfolding post
  post-Refines x m w (v, same, user) = (
    put _ _ _ w (record {
      queue =
          q.post_queued _ _
          ∙ ap (λ xs. xs ++ handler l x ∷ []) v.queue
          ∙ sym (map-append (handler l) m.items (x ∷ []));
      open' = λ e. q.post_stopped _ _ ∙ v.open' e;
      started = v.started;
      work = v.work;
      thread = v.thread;
    }),
    same,
    user,
  )

  pub stop-Refines :
      (m : Mailbox B U) (w : World B S U)
      → Refines m w
      → Refines (record m { owner = none }) (stop io l w)
  unfolding stop
  stop-Refines m w (v, same, user) = (
    put _ _ _ w (record {
      queue = q.stop_queued _ ∙ dropped (w.loops l) ∙ v.queue;
      open' = λ e. cc;
      started = refl;
      work = refl;
      thread = refl;
    }),
    same,
    user,
  )
    where
      dropped :
          (v : EventLoop S)
          → q.queued (if v.work then io.drop_work v.service else v.service) ≡ q.queued v.service
      dropped v = elim (Bool-cases v.work) [
        | inl e ↦ rw e (q.drop_queued v.service)
        | inr e ↦ rw e refl
      ]

  pub start-Refines :
      (self : ℕ) (m : Mailbox B U) (w : World B S U)
      → Refines m w
      → Refines (record m { owner = take_over self m.owner }) (start io self l w)
  unfolding start
  start-Refines self m w (v, same, user) = elim (Option-cases m.owner) [
    | inl e ↦
        rw (v.started, v.work, e, start)
          (
            put _ _ _ w (record {
              queue = q.work_queued _ ∙ q.reset_queued _ ∙ v.queue;
              open' = λ s. q.work_stopped _ ∙ q.reset_stopped _;
              started = refl;
              work = refl;
              thread = refl;
            }),
            same,
            user,
          )
    | inr (t, e) ↦ rw (v.started, v.work, e, start) (rw e at v, same, user)
  ]

  -- A handler is taken out of the queue.
  pub taken-Refines :
      (x : Item B) (xs : List (Item B)) (m : Mailbox B U) (w : World B S U) (t : S)
      → Refines m w
      → q.queued t ≡ map (handler l) xs
      → q.stopped t ≡ false
      → Refines (record m { items = xs }) (set_service io l t w)
  taken-Refines x xs m w t (v, same, user) e o = (
    put _ _ _ w (record {
      queue = e;
      open' = λ s. o;
      started = v.started;
      work = v.work;
      thread = v.thread;
    }),
    same,
    user,
  )
