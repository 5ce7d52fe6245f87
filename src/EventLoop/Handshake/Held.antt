-- ===== src/EventLoop/Handshake/Held.antt =====
-- The thread of a loop at ProcessEvents (ks/KsEventLoop.cpp), where slots and then one blocking slot
-- are queued.
use mathlib.Core.List.{map-append}
use ks_core.Base.{
  ℕ, suc, ◌+◌, ◌-◌, ◌≤◌, ◌≡◌, ◌≢◌, refl, ap, ◌∙◌, Bool, true, false, List, [], ◌∷◌, ◌++◌, map,
  length, update, update_self, arith, ==_refl,
}
use ks_core.Event.{Event, Callback, slot_event, blocking_slot_event}
use ks_core.Host.{Result, ok}
use ks_core.Asio.{IoService, Queue}
use ks_core.World.{Handler, event_handler, EventLoop, Object, World}
use ks_core.EventLoop.{ensure_active}
use ks_core.EventLoop.Post.{set_service, post}
use ks_core.EventLoop.Handlers.{completed, idle, handle, poll, invoke_blocking, process_events}
use ks_core.EventLoop.Posting.{IsTame, noted, call_tame, poll-slots, poll_empty}

abbrev pub slot : {B : Type 0} → Callback B → Handler B
slot c = event_handler (slot_event c)

module _ {B U : Type 0} (note : B → U → U) (objects : ℕ → Object) where
  pub noted-append :
      (xs ys : List (Callback B)) (u : U)
      → noted note objects (xs ++ ys) u ≡ noted note objects ys (noted note objects xs u)
  noted-append [] ys u = refl
  noted-append (x ∷ xs) ys u = noted-append xs ys _

module _ {B S U : Type 0} (io : IoService (Handler B) S) (q : Queue io)
    (run : B → World B S U → World B S U × Result) (note : B → U → U) (tame : IsTame note run)
    (emitter self k : ℕ) (apart : self ≢ emitter) (objects : ℕ → Object) where
  -- Loop `k` is run by `self`, and these handlers wait in its queue.
  pub record Holds (xs : List (Handler B)) (u : U) (w : World B S U) : Type 0 where
    pub queue : q.queued (w.loops k).service ≡ xs
    pub open' : q.stopped (w.loops k).service ≡ false
    pub started : (w.loops k).started ≡ true
    pub thread : (w.loops k).thread_id ≡ self
    pub work : (w.loops k).work ≡ true
    pub objects' : w.objects ≡ objects
    pub user : w.user ≡ u

  pub post-Holds :
      (e : Event B) (xs : List (Handler B)) (u : U) (w : World B S U)
      → Holds xs u w
      → Holds (xs ++ event_handler e ∷ []) u (post io k (event_handler e) w)
  unfolding post
  post-Holds e xs u w v =
      let at =
        update_self w.loops k
          (record (w.loops k) { service = io.post (event_handler e) (w.loops k).service }) in
      record {
        queue =
            ap (λ (x : EventLoop S). q.queued x.service) at
            ∙ q.post_queued _ _
            ∙ ap (λ ys. ys ++ event_handler e ∷ []) v.queue;
        open' = ap (λ (x : EventLoop S). q.stopped x.service) at ∙ q.post_stopped _ _ ∙ v.open';
        started = ap (λ (x : EventLoop S). x.started) at ∙ v.started;
        thread = ap (λ (x : EventLoop S). x.thread_id) at ∙ v.thread;
        work = ap (λ (x : EventLoop S). x.work) at ∙ v.work;
        objects' = v.objects';
        user = v.user;
      }

  pub queued-Holds :
      (x : Callback B) (pend : List (Callback B)) (u : U) (w : World B S U)
      → Holds (map slot pend) u w
      → Holds (map slot (pend ++ x ∷ [])) u (post io k (slot x) w)
  queued-Holds x pend u w v =
      rw (map-append slot pend (x ∷ [])) (post-Holds (slot_event x) (map slot pend) u w v)

  pub called-Holds :
      (x : Callback B) (xs : List (Handler B)) (u : U) (w : World B S U)
      → Holds xs u w
      → Holds xs
          (noted note objects (x ∷ []) u)
          (record w { user = noted note w.objects (x ∷ []) w.user })
  called-Holds x xs u w v = record {
    queue = v.queue;
    open' = v.open';
    started = v.started;
    thread = v.thread;
    work = v.work;
    objects' = v.objects';
    user =
        ap (λ o. noted note o (x ∷ []) w.user) v.objects' ∙ ap (noted note objects (x ∷ [])) v.user;
  }

  pub flag-Holds :
      (xs : List (Handler B)) (u : U) (w : World B S U) (f : ℕ → Bool) (n : ℕ)
      → Holds xs u w
      → Holds xs u (record w { flags = f; next_flag = n })
  flag-Holds xs u w f n v = record {
    queue = v.queue;
    open' = v.open';
    started = v.started;
    thread = v.thread;
    work = v.work;
    objects' = v.objects';
    user = v.user;
  }

  -- The round of `poll` at a blocking slot event sets the event's flag.
  handle_blocking :
      (c : Callback B) (f : ℕ) (w : World B S U)
      → handle io run self (event_handler (blocking_slot_event c f)) w ≡ (
        record w { user = noted note w.objects (c ∷ []) w.user; flags = update w.flags f true },
        completed ok,
      )
  unfolding handle invoke_blocking
  handle_blocking c f w = ap (invoke_blocking io run f) (call_tame io run note tame c w)

  poll_blocking :
      (c : Callback B) (f n : ℕ) (u : U) (w : World B S U)
      → Holds (event_handler (blocking_slot_event c f) ∷ []) u w
      → (w' : World B S U) × (poll io run (suc (suc n)) self k w ≡ (w', idle))
        × (w'.flags f ≡ true)
        × Holds [] (noted note objects (c ∷ []) u) w'
  unfolding poll
  poll_blocking c f n u w v =
      let (t, taken, left, still) = q.next_ready (w.loops k).service _ _ v.open' v.queue in
      let r = handle_blocking c f (set_service io k t w) in
      let w' : World B S U = record (set_service io k t w) {
        user = noted note w.objects (c ∷ []) w.user;
        flags = update w.flags f true;
      } in
      let at = update_self w.loops k (record (w.loops k) { service = t }) in
      let empty : q.queued (w'.loops k).service ≡ [] =
        ap (λ (x : EventLoop S). q.queued x.service) at ∙ left in
      (
        w',
        rw (taken, poll)
            (rw (ap (λ r. r.1) r) (
              ap (λ r. poll io run (suc n) self k r.0) r
              ∙ poll_empty io run note tame q n self k w' empty)),
        update_self w.flags f true,
        record {
          queue = empty;
          open' = ap (λ (x : EventLoop S). q.stopped x.service) at ∙ still;
          started = ap (λ (x : EventLoop S). x.started) at ∙ v.started;
          thread = ap (λ (x : EventLoop S). x.thread_id) at ∙ v.thread;
          work = ap (λ (x : EventLoop S). x.work) at ∙ v.work;
          objects' = v.objects';
          user =
              ap (λ o. noted note o (c ∷ []) w.user) v.objects'
              ∙ ap (noted note objects (c ∷ [])) v.user;
        },
      )

  active :
      (v : EventLoop S)
      → v.started ≡ true
      → v.work ≡ true
      → v.thread_id ≡ self
      → ensure_active self v ≡ ok
  unfolding ensure_active
  active v s o t = ground (arith, ==_refl self)

  -- The thread of loop `k` runs what was queued, and then the blocking slot.
  pub serve :
      (pend : List (Callback B)) (x : Callback B) (f m : ℕ) (u : U) (w : World B S U)
      → Holds (map slot pend ++ event_handler (blocking_slot_event x f) ∷ []) u w
      → length pend + 2 ≤ m
      → (w' : World B S U) × (process_events io run m self k w ≡ (w', idle))
        × (w'.flags f ≡ true)
        × Holds [] (noted note objects (pend ++ x ∷ []) u) w'
  unfolding process_events
  serve pend x f m u w v room =
      let n : ℕ = m - (length pend + 2) in
      let (w1, same, ran) =
        poll-slots io run note tame q pend (event_handler (blocking_slot_event x f) ∷ [])
          (suc (suc n)) self k w v.open' v.queue in
      let user : w1.user ≡ noted note objects pend u =
        ran.user
        ∙ ap (λ o. noted note o pend w.user) v.objects'
        ∙ ap (noted note objects pend) v.user in
      let v1 : Holds (event_handler (blocking_slot_event x f) ∷ []) (noted note objects pend u) w1 =
        record {
          queue = ran.queue;
          open' = ran.open';
          started = ran.started ∙ v.started;
          thread = ran.thread ∙ v.thread;
          work = ran.work ∙ v.work;
          objects' = ran.objects ∙ v.objects';
          user = user;
        } in
      let (w2, ends, set, v2) = poll_blocking x f n (noted note objects pend u) w1 v1 in
      let split : m ≡ length pend + suc (suc n) = omega arith in
      (
        w2,
        rw (active (w.loops k) v.started v.work v.thread, process_events)
            (ap (λ a. poll io run a self k w) split ∙ same ∙ ends),
        set,
        rw (noted-append note objects pend (x ∷ []) u) v2,
      )
