-- ===== src/EventLoop/Refinement.antt =====
-- The event loop of ks/KsEventLoop.cpp implements the queue of `EventLoop.Mailbox`, for user code
-- that changes only what belongs to the user.
pub mod Stands
mod Tests
use ks_core.Base.{
  ◌≢◌, All, ℕ, zero, suc, ◌<◌, ◌≡◌, refl, sym, ap, ◌∙◌, Option, none, some, List, [], ◌∷◌, ◌==◌,
  map, length, length-map, arith, Bool-cases, inl, inr,
}
use ks_core.Event.{slot_event}
use ks_core.Host.{Result}
use ks_core.Asio.{IoService, Queue}
use ks_core.World.{Handler, Object, World}
use ks_core.EventLoop.{ensure_active, start, stop}
use ks_core.EventLoop.Post.{set_service, post_event, post_callback, post_stop_event}
use ks_core.EventLoop.Handlers.{Polled, idle, out_of_fuel, handle, poll, process_events}
use ks_core.EventLoop.Posting.{IsTame, noted, poll_slot, poll_empty}
use ks_core.EventLoop.Stopping.{poll_stopped, stop_lem}
use ks_core.EventLoop.Mailbox.{
  Item, slot_call, halt, Mailbox, Request, to_start, to_stop, to_post, to_post_callback,
  to_post_stop, to_process, drain, process, reply, replies,
}
use ks_core.EventLoop.Refinement.Stands.{
  handler, owned, thread_of, Refines, post-Refines, stop-Refines, start-Refines, taken-Refines,
}

module _ {B S U : Type 0} (io : IoService (Handler B) S) (q : Queue io)
    (run : B → World B S U → World B S U × Result) (note : B → U → U) (tame : IsTame note run)
    (l : ℕ) (objects : ℕ → Object) where
  -- The call of the loop's method. ProcessEvents has one round more than there are handlers.
  abbrev pub perform : Request B → World B S U → World B S U × Polled B
  perform (to_start self) w = (start io self l w, idle)
  perform to_stop w = (stop io l w, idle)
  perform (to_post c) w = (post_event io l (slot_event c) w, idle)
  perform (to_post_callback b) w = (post_callback io l b w, idle)
  perform to_post_stop w = (post_stop_event io l w, idle)
  perform (to_process self) w =
      process_events io run (suc (length (q.queued (w.loops l).service))) self l w

  abbrev pub performs : List (Request B) → World B S U → World B S U × List (Polled B)
  performs [] w = (w, [])
  performs (r ∷ rs) w = let (w1, p) = perform r w in let (w2, ps) = performs rs w1 in (w2, p ∷ ps)

  poll-drain :
      (xs : List (Item B)) (n self t : ℕ) (m : Mailbox B U) (w : World B S U)
      → m.items ≡ xs
      → m.owner ≡ some t
      → length xs < n
      → Refines io q l objects m w
      → (w' : World B S U) × (poll io run n self l w ≡ (w', idle))
        × Refines io q l objects (drain note objects xs m) w'
  unfolding poll handle
  poll-drain [] (suc n) self t m w e owner long (v, same, user) = (
    w,
    poll_empty io run note tame q n self l w (v.queue ∙ ap (map (handler l)) e),
    (rw e at v, same, user),
  )
  poll-drain (slot_call c ∷ xs) (suc n) self t m w e owner long (v, same, user) =
      let (s, taken, left, still) =
        q.next_ready (w.loops l).service _ _ (v.open' (v.started ∙ ap owned owner))
          (v.queue ∙ ap (map (handler l)) e) in
      let (v1, same1, user1) =
        taken-Refines io q l objects (slot_call c) xs m w s (v, same, user) left still in
      let (w2, ends, held) =
        poll-drain xs n self t (record m { items = xs; user = noted note objects (c ∷ []) m.user })
          (record (set_service io l s w) { user = noted note w.objects (c ∷ []) w.user }) refl owner
          (omega arith)
          (
            v1,
            same,
            ap (λ o. noted note o (c ∷ []) w.user) same ∙ ap (noted note objects (c ∷ [])) user,
          ) in
      (w2, poll_slot io run note tame c n self l w s taken ∙ ends, held)
  poll-drain (halt ∷ xs) (suc (suc n)) self t m w e owner long (v, same, user) =
      let (s, taken, left, still) =
        q.next_ready (w.loops l).service _ _ (v.open' (v.started ∙ ap owned owner))
          (v.queue ∙ ap (map (handler l)) e) in
      let w1 : World B S U = set_service io l s w in
      (
        stop io l w1,
        rw (taken, poll)
            (poll_stopped io run note tame q n self l (stop io l w1)
              (stop_lem io run note tame q l w1).1),
        stop-Refines io q l objects (record m { items = xs }) w1
            (taken-Refines io q l objects halt xs m w s (v, same, user) left still),
      )
  poll-drain (halt ∷ xs) (suc zero) self t m w e owner long r = absurd (omega arith)
  poll-drain [] zero self t m w e owner long r = absurd (omega arith)
  poll-drain (x ∷ xs) zero self t m w e owner long r = absurd (omega arith)

  process-Refines :
      (o : Option ℕ) (self : ℕ) (m : Mailbox B U) (w : World B S U)
      → m.owner ≡ o
      → Refines io q l objects m w
      → ((perform (to_process self) w).1 ≡ (process note objects self o m).1)
        × Refines io q l objects (process note objects self o m).0 (perform (to_process self) w).0
  unfolding process_events ensure_active
  process-Refines none self m w e (v, same, user) =
      rw (v.started ∙ ap owned e, process_events) (refl, (v, same, user))
  process-Refines (some t) self m w e (v, same, user) = elim (Bool-cases (t == self)) [
    | inr other ↦
        rw
          (
            v.started ∙ ap owned e,
            v.work ∙ ap owned e,
            v.thread ∙ ap thread_of e,
            other,
            process_events,
          )
          (refl, (v, same, user))
    | inl mine ↦
        let room : length m.items < suc (length (q.queued (w.loops l).service)) =
          omega (arith, ap length v.queue, length-map (handler l) m.items) in
        let (w', ends, held) = poll-drain m.items _ self t m w refl e room (v, same, user) in
        rw
          (
            v.started ∙ ap owned e,
            v.work ∙ ap owned e,
            v.thread ∙ ap thread_of e,
            mine,
            process_events,
          )
          (rw ends (refl, held))
  ]

  perform-Refines :
      (r : Request B) (m : Mailbox B U) (w : World B S U)
      → Refines io q l objects m w
      → ((perform r w).1 ≡ (reply note objects r m).1)
        × Refines io q l objects (reply note objects r m).0 (perform r w).0
  unfolding post_event post_callback post_stop_event
  perform-Refines (to_start self) m w v = (refl, start-Refines io q l objects self m w v)
  perform-Refines to_stop m w v = (refl, stop-Refines io q l objects m w v)
  perform-Refines (to_post c) m w v = (refl, post-Refines io q l objects (slot_call c) m w v)
  perform-Refines (to_post_callback b) m w v =
      (refl, post-Refines io q l objects (slot_call (record { guard = none; body = b })) m w v)
  perform-Refines to_post_stop m w v = (refl, post-Refines io q l objects halt m w v)
  perform-Refines (to_process self) m w v = process-Refines m.owner self m w refl v

  -- Whatever calls of Start, Stop, PostEvent of a slot event, PostCallback, PostStopEvent and
  -- ProcessEvents are made of a loop, by whichever threads and in whichever order: if the loop's
  -- state is one that a mailbox stands for, then each call replies as the mailbox does, with the
  -- same exceptions, the slots that have been called are the mailbox's, and the mailbox stands for
  -- the loop's state afterwards.
  pub performs-replies :
      (rs : List (Request B)) (m : Mailbox B U) (w : World B S U)
      → Refines io q l objects m w
      → ((performs rs w).1 ≡ (replies note objects rs m).1)
        × Refines io q l objects (replies note objects rs m).0 (performs rs w).0
  performs-replies [] m w v = (refl, v)
  performs-replies (r ∷ rs) m w v =
      let (same, v1) = perform-Refines r m w v in
      let (sames, v2) = performs-replies rs (reply note objects r m).0 (perform r w).0 v1 in
      (
        ap (λ p. p ∷ (performs rs (perform r w).0).1) same
            ∙ ap (◌∷◌ (reply note objects r m).1) sames,
        v2,
      )

  reply_returns : (r : Request B) (m : Mailbox B U) → (reply note objects r m).1 ≢ out_of_fuel
  reply_returns (to_start self) m e = cc
  reply_returns to_stop m e = cc
  reply_returns (to_post c) m e = cc
  reply_returns (to_post_callback b) m e = cc
  reply_returns to_post_stop m e = cc
  reply_returns (to_process self) m e = ground (arith, e)

  -- In such calls ProcessEvents always comes back: it never takes more handlers than were queued
  -- when it was called.
  pub performs_return :
      (rs : List (Request B)) (m : Mailbox B U) (w : World B S U)
      → Refines io q l objects m w
      → All (λ p. p ≢ out_of_fuel) (performs rs w).1
  performs_return [] m w v = tt
  performs_return (r ∷ rs) m w v =
      let (same, v1) = perform-Refines r m w v in
      (
        (λ e. reply_returns r m (sym same ∙ e)),
        performs_return rs (reply note objects r m).0 (perform r w).0 v1,
      )
