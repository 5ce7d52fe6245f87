-- ===== src/EventLoop/Posting.antt =====
-- From `PostEvent` to the slot: what `ProcessEvents` runs, in which order, and when it stops, for
-- user code that changes only what belongs to the user.
use native.Mathlib.Nat.{zero-add, suc-add}
use mathlib.Core.List.{append-nil, append_assoc}
use ks_core.Base.{
  ℕ, suc, ◌+◌, ◌≡◌, refl, sym, ap, ◌∙◌, Bool, true, false, Option, none, some, List, [], ◌∷◌, ◌++◌,
  length, map, if◌then◌else◌, update_self, Bool-cases, inl, inr, Option-cases,
}
use ks_core.Event.{Callback, slot_event}
use ks_core.Host.{Result, ok, call}
use ks_core.Asio.{IoService, Queue}
use ks_core.World.{Handler, event_handler, EventLoop, Object, World, set_loop}
use ks_core.EventLoop.{ensure_active}
use ks_core.EventLoop.Post.{set_service, host, post, post_event}
use ks_core.EventLoop.Handlers.{completed, idle, handle, poll, process_events}

-- User code that returns, and changes what `note` says of the user's state, but nothing of the
-- library's.
abbrev pub IsTame :
    {B S U : Type 0} → (B → U → U) → (B → World B S U → World B S U × Result) → Type 0
IsTame {B} {S} {U} note run =
    (b : B) (w : World B S U) → run b w ≡ (record w { user = note b w.user }, ok)

module _ {B U : Type 0} (note : B → U → U) (objects : ℕ → Object) where
  abbrev pub lives : Option ℕ → Bool
  lives none = true
  lives (some o) = (objects o).alive

  -- The user's state after the calls, of which one that holds a dead object is no call.
  abbrev pub noted : List (Callback B) → U → U
  noted [] u = u
  noted (c ∷ cs) u = noted cs (if lives c.guard then note c.body u else u)

module _ {B S U : Type 0} (io : IoService (Handler B) S) where
  -- Posting slot events, one after the other.
  pub post_all : ℕ → List (Callback B) → World B S U → World B S U
  post_all l [] w = w
  post_all l (c ∷ cs) w = post_all l cs (post_event io l (slot_event c) w)

module _ {B S U : Type 0} (io : IoService (Handler B) S)
    (run : B → World B S U → World B S U × Result) (note : B → U → U) (tame : IsTame note run) where
  pub call_tame :
      (c : Callback B) (w : World B S U)
      → call (host io run) c w ≡ (record w { user = noted note w.objects (c ∷ []) w.user }, ok)
  unfolding call
  call_tame c w = elim (Option-cases c.guard) [
    | inl e ↦ rw (e, call) (tame c.body w)
    | inr (o, e) ↦ elim (Bool-cases (w.objects o).alive) [
      | inl live ↦ rw (e, call) (rw live (tame c.body w))
      | inr gone ↦ rw (e, call) (rw gone refl)
    ]
  ]

  pub handle_slot :
      (c : Callback B) (self : ℕ) (w : World B S U)
      → handle io run self (event_handler (slot_event c)) w
        ≡ (record w { user = noted note w.objects (c ∷ []) w.user }, completed ok)
  unfolding handle
  handle_slot c self w = ap (λ r. (r.0, completed r.1)) (call_tame c w)

  -- One round of `poll` at a slot event.
  pub poll_slot :
      (c : Callback B) (n self l : ℕ) (w : World B S U) (t : S)
      → io.next (w.loops l).service ≡ some (event_handler (slot_event c), t)
      → poll io run (suc n) self l w
        ≡ poll io run n self l
            (record (set_service io l t w) { user = noted note w.objects (c ∷ []) w.user })
  unfolding poll
  poll_slot c n self l w t e =
      let done = handle_slot c self (set_service io l t w) in
      rw (e, poll) (rw (ap (λ r. r.1) done) (ap (λ r. poll io run n self l r.0) done))

  module _ (q : Queue io) where
    abbrev pub slots : List (Callback B) → List (Handler B)
    slots = map λ c. event_handler (slot_event c)

    -- From `w` to `w'` the loop has run the callbacks, and `rest` is what its queue still holds.
    pub record Ran (l : ℕ) (cs : List (Callback B)) (rest : List (Handler B)) (w w' : World B S U)
        : Type 0 where
      pub user : w'.user ≡ noted note w.objects cs w.user
      pub objects : w'.objects ≡ w.objects
      pub queue : q.queued (w'.loops l).service ≡ rest
      pub open' : q.stopped (w'.loops l).service ≡ false
      pub started : (w'.loops l).started ≡ (w.loops l).started
      pub thread : (w'.loops l).thread_id ≡ (w.loops l).thread_id
      pub work : (w'.loops l).work ≡ (w.loops l).work

    pub poll-slots :
        (cs : List (Callback B)) (rest : List (Handler B)) (n self l : ℕ) (w : World B S U)
        → q.stopped (w.loops l).service ≡ false
        → q.queued (w.loops l).service ≡ slots cs ++ rest
        → (w' : World B S U) × (poll io run (length cs + n) self l w ≡ poll io run n self l w')
          × Ran l cs rest w w'
    poll-slots [] rest n self l w o e = (
      w,
      rw zero-add,
      record {
        user = refl;
        objects = refl;
        queue = e;
        open' = o;
        started = refl;
        thread = refl;
        work = refl;
      },
    )
    poll-slots (c ∷ cs) rest n self l w o e =
        let (t, taken, left, still) = q.next_ready (w.loops l).service _ _ o e in
        let v : World B S U = record (set_service io l t w) {
          user = noted note w.objects (c ∷ []) w.user;
        } in
        let at : (v.loops l).service ≡ t =
          ap (λ (x : EventLoop S). x.service) (update_self w.loops l _) in
        let (w', same, ran) =
          poll-slots cs rest n self l v (ap q.stopped at ∙ still) (ap q.queued at ∙ left) in
        (
          w',
          rw suc-add (poll_slot c (length cs + n) self l w t taken ∙ same),
          record {
            user = ran.user;
            objects = ran.objects;
            queue = ran.queue;
            open' = ran.open';
            started = ran.started ∙ ap (λ (x : EventLoop S). x.started) (update_self w.loops l _);
            thread = ran.thread ∙ ap (λ (x : EventLoop S). x.thread_id) (update_self w.loops l _);
            work = ran.work ∙ ap (λ (x : EventLoop S). x.work) (update_self w.loops l _);
          },
        )

    pub service_of : (l : ℕ) (v : EventLoop S) (w : World B S U) → (set_loop l v w).loops l ≡ v
    service_of l v w = update_self w.loops l v

    -- The queue of loop `l` has grown from `w` to `w'` by the handlers `xs`, and nothing else of it.
    pub record Grown (l : ℕ) (xs : List (Handler B)) (w w' : World B S U) : Type 0 where
      pub queue : q.queued (w'.loops l).service ≡ q.queued (w.loops l).service ++ xs
      pub open' : q.stopped (w'.loops l).service ≡ q.stopped (w.loops l).service
      pub active : (self : ℕ) → ensure_active self (w'.loops l) ≡ ensure_active self (w.loops l)
      pub objects : w'.objects ≡ w.objects
      pub user : w'.user ≡ w.user

    pub post-Grown : (l : ℕ) (x : Handler B) (w : World B S U) → Grown l (x ∷ []) w (post io l x w)
    unfolding post ensure_active
    post-Grown l x w =
        let e = service_of l (record (w.loops l) { service = io.post x (w.loops l).service }) w in
        record {
          queue = rw e (q.post_queued x (w.loops l).service);
          open' = rw e (q.post_stopped x (w.loops l).service);
          active = λ self. rw e refl;
          objects = refl;
          user = refl;
        }

    Grown-trans :
        (l : ℕ) (xs ys : List (Handler B)) (u v w : World B S U)
        → Grown l xs u v
        → Grown l ys v w
        → Grown l (xs ++ ys) u w
    Grown-trans l xs ys u v w a b = record {
      queue = b.queue ∙ ap (λ z. z ++ ys) a.queue ∙ append_assoc _ xs ys;
      open' = b.open' ∙ a.open';
      active = λ self. b.active self ∙ a.active self;
      objects = b.objects ∙ a.objects;
      user = b.user ∙ a.user;
    }

    pub post_all-Grown :
        (l : ℕ) (cs : List (Callback B)) (w : World B S U)
        → Grown l (slots cs) w (post_all io l cs w)
    unfolding post_all post_event
    post_all-Grown l [] w = record {
      queue = sym (append-nil _);
      open' = refl;
      active = λ self. refl;
      objects = refl;
      user = refl;
    }
    post_all-Grown l (c ∷ cs) w =
        Grown-trans l (event_handler (slot_event c) ∷ []) (slots cs) w _ _
          (post-Grown l (event_handler (slot_event c)) w)
          (post_all-Grown l cs (post io l (event_handler (slot_event c)) w))

    pub poll_empty :
        (n self l : ℕ) (w : World B S U)
        → q.queued (w.loops l).service ≡ []
        → poll io run (suc n) self l w ≡ (w, idle)
    unfolding poll
    poll_empty n self l w e = rw (q.next_empty _ e, poll) refl

    -- Slot events that are posted to a loop with an empty queue are run by the next `ProcessEvents`
    -- of the thread that started the loop, each once and in the order in which they were posted,
    -- where one that holds a dead object does nothing; and it returns, with an empty queue.
    pub process_events-post_all :
        (cs : List (Callback B)) (n self l : ℕ) (w : World B S U)
        → ensure_active self (w.loops l) ≡ ok
        → q.stopped (w.loops l).service ≡ false
        → q.queued (w.loops l).service ≡ []
        → (w' : World B S U) × (process_events io run
              (length cs + suc n)
              self
              l
              (post_all io l cs w)
            ≡ (w', idle))
          × (w'.user ≡ noted note w.objects cs w.user)
          × (q.queued (w'.loops l).service ≡ [])
    unfolding process_events
    process_events-post_all cs n self l w active o e =
        let g = post_all-Grown l cs w in
        let (w', same, ran) =
          poll-slots cs [] (suc n) self l (post_all io l cs w) (g.open' ∙ o)
            (g.queue ∙ ap (λ z. z ++ slots cs) e ∙ sym (append-nil (slots cs))) in
        (
          w',
          rw (g.active self ∙ active, process_events) (same ∙ poll_empty n self l w' ran.queue),
          ran.user
              ∙ ap (λ o. noted note o cs (post_all io l cs w).user) g.objects
              ∙ ap (noted note w.objects cs) g.user,
          ran.queue,
        )
