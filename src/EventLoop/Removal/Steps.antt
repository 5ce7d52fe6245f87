-- ===== src/EventLoop/Removal/Steps.antt =====
-- The steps of RemoveFromThread (ks/KsEventLoop.cpp) against the rank that says how many are left.
use ks_core.Base.{
  ℕ, ◌+◌, ◌≤◌, ◌≡◌, inl, inr, refl, sym, ap, ◌∙◌, true, none, [], ◌∷◌, ◌++◌, arith, update_self,
}
use ks_core.Host.{Result}
use ks_core.Asio.{IoService, Queue}
use ks_core.World.{Handler, EventLoop, Object, World}
use ks_core.EventLoop.{leave_run, stop}
use ks_core.EventLoop.Post.{post, post_event, post_stop_event}
use ks_core.EventLoop.Posting.{IsTame}
use ks_core.EventLoop.Stopping.{stop_lem}
use ks_core.EventLoop.Mailbox.{Item, slot_call, halt, Mailbox}
use ks_core.EventLoop.Refinement.Stands.{handler, owned, Refines, post-Refines, stop-Refines}
use ks_core.EventLoop.Removal.{
  Removal, Step, takes, throws, leaves, posts, posts_stop, stops, removes, joins, is_move,
}
use ks_core.EventLoop.Removal.Ranks.{rank, fine, fine_running, fine-append, fine_stopped}
use ks_core.EventLoop.Removal.Rounds.{took}

module _ {B S U : Type 0} (io : IoService (Handler B) S) (q : Queue io)
    (run : B → World B S U → World B S U × Result) (note : B → U → U) (tame : IsTame note run)
    (self l : ℕ) (objects : ℕ → Object) where
  -- The mailbox stands for the loop, and the removal is under way.
  pub record Ranked (m : Mailbox B U) (s : Removal B S U) : Type 0 where
    pub stands : Refines io q l objects m s.world
    pub shut : m.owner ≡ none → q.stopped (s.world.loops l).service ≡ true
    pub place : fine s.caller s.worker m.owner m.items ≡ true

  abbrev pub left : Mailbox B U → Removal B S U → ℕ
  left m s = rank s.caller s.worker m.owner m.items

  abbrev pub After : (m : Mailbox B U) (s t : Removal B S U) → Step io run self l s t → Type 0
  After m s t st =
      (m' : Mailbox B U) × Ranked m' t × (left m' t + is_move io run self l st ≤ left m s)

  post_still :
      (x : Handler B) (w : World B S U)
      → q.stopped ((post io l x w).loops l).service ≡ q.stopped (w.loops l).service
  unfolding post
  post_still x w =
      ap (λ (v : EventLoop S). q.stopped v.service) (update_self w.loops l _) ∙ q.post_stopped _ _

  -- Others post.
  posted :
      (x : Item B) (m : Mailbox B U) (s : Removal B S U)
      → Ranked m s
      → (m' : Mailbox B U) × Ranked m' (record s { world = post io l (handler l x) s.world })
        × (left m' (record s { world = post io l (handler l x) s.world }) ≤ left m s)
  posted x m s v =
      let (good, same) = fine-append s.caller s.worker m.owner m.items (x ∷ []) v.place in
      (
        record m { items = m.items ++ x ∷ [] },
        record {
          stands = post-Refines io q l objects x m s.world v.stands;
          shut = λ e. post_still _ _ ∙ v.shut e;
          place = good;
        },
        omega (arith, same),
      )

  -- The loop is stopped.
  halted :
      (m : Mailbox B U) (s : Removal B S U)
      → Ranked m s
      → (m' : Mailbox B U) × Ranked m' (record s { world = stop io l s.world })
        × (left m' (record s { world = stop io l s.world }) ≤ left m s)
  halted m s v =
      let (good, less) = fine_stopped s.caller s.worker m.owner m.items v.place in
      (
        record m { owner = none },
        record {
          stands = stop-Refines io q l objects m s.world v.stands;
          shut = λ e. (stop_lem io run note tame q l s.world).1;
          place = good;
        },
        less,
      )

  left-Refines :
      (m : Mailbox B U) (w : World B S U)
      → Refines io q l objects m w
      → Refines io q l objects m (leave_run l w)
  unfolding leave_run
  left-Refines m w (v, same, user) = (
    rw (update_self w.loops l _) (record {
      queue = v.queue;
      open' = v.open';
      started = v.started;
      work = v.work;
      thread = v.thread;
    }),
    same,
    user,
  )

  left_stopped :
      (w : World B S U)
      → q.stopped ((leave_run l w).loops l).service ≡ q.stopped (w.loops l).service
  unfolding leave_run
  left_stopped w = ap (λ (v : EventLoop S). q.stopped v.service) (update_self w.loops l _)

  pub step_ranked :
      (m : Mailbox B U) (s t : Removal B S U) (st : Step io run self l s t)
      → Ranked m s
      → After m s t st
  unfolding post_event post_stop_event
  step_ranked m s t (posts c k) v =
      let (m', r, less) = posted (slot_call c) m s v in rw k (m', r, omega (arith, less))
  step_ranked m s t (posts_stop k) v =
      let (m', r, less) = posted halt m s v in rw k (m', r, omega (arith, less))
  step_ranked m s t (stops k) v =
      let (m', r, less) = halted m s v in rw k (m', r, omega (arith, less))
  step_ranked m s t (removes b p k) v = absurd (cc (rw p at v.place))
  step_ranked m s t (joins p e k) v =
      rw k
        (m, record { stands = v.stands; shut = v.shut; place = rw e refl }, rw (p, e) (omega arith))
  step_ranked m s t (takes x y p e r k) v =
      let (now, own) = fine_running s.caller m.owner m.items (rw p at v.place) in
      elim own [
        | inl none' ↦ absurd (cc (sym e ∙ q.next_stopped _ (v.shut none')))
        | inr (i, o, h) ↦
            let (m', stands, fine', shut, place, less) =
              took io q run note tame self l objects m.items i m s.world x y e refl o h v.stands in
            rw k (
              m',
              record { stands = stands; shut = shut; place = rw (now, p) place },
              rw (now, p, o) (omega (arith, less)),
            )
      ]
  step_ranked m s t (throws x y z p e r k) v =
      let (now, own) = fine_running s.caller m.owner m.items (rw p at v.place) in
      elim own [
        | inl none' ↦ absurd (cc (sym e ∙ q.next_stopped _ (v.shut none')))
        | inr (i, o, h) ↦
            let (m', stands, fine', shut, place, less) =
              took io q run note tame self l objects m.items i m s.world x y e refl o h v.stands in
            absurd (cc (sym r ∙ fine'))
      ]
  step_ranked m s t (leaves p e n k) v =
      let (now, own) = fine_running s.caller m.owner m.items (rw p at v.place) in
      elim own [
        | inl none' ↦ rw k (
          m,
          record {
            stands = left-Refines m s.world v.stands;
            shut = λ z. left_stopped s.world ∙ v.shut z;
            place = rw now refl;
          },
          rw (now, p, none') (omega arith),
        )
        | inr (i, o, h) ↦ absurd (cc (sym n ∙ v.stands.0.work ∙ ap owned o))
      ]
