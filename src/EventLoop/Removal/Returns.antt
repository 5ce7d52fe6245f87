-- ===== src/EventLoop/Removal/Returns.antt =====
-- RemoveFromThread (ks/KsEventLoop.cpp) returns, for user code that changes only what belongs to the
-- user.
use ks_core.Base.{
  ℕ, ◌+◌, ◌≤◌, ◌≡◌, ◌⊎◌, inl, inr, refl, sym, ap, ◌∙◌, Bool, true, false, none, some, [], ◌∷◌, ◌++◌,
  map, arith, length,
}
use ks_core.Host.{Result}
use ks_core.Asio.{IoService, Queue}
use ks_core.World.{Handler, Object, World}
use ks_core.EventLoop.{leave_run}
use ks_core.EventLoop.Post.{set_service, post_stop_event}
use ks_core.EventLoop.Handlers.{handle}
use ks_core.EventLoop.Posting.{IsTame}
use ks_core.EventLoop.Stopping.{stop_lem}
use ks_core.EventLoop.Launch.{in_run, finished}
use ks_core.EventLoop.Mailbox.{halt, Mailbox}
use ks_core.EventLoop.Refinement.Stands.{handler, owned, Refines, post-Refines, stop-Refines}
use ks_core.EventLoop.Removal.{
  joining, removed, Removal, Step, takes, leaves, joins, is_move, remove_from_thread, Reach, here,
  next, moves,
}
use ks_core.EventLoop.Removal.Ranks.{rank, fine_running, fine_cases, has_halt_first, until-append}
use ks_core.EventLoop.Removal.Rounds.{took}
use ks_core.EventLoop.Removal.Steps.{Ranked, left, step_ranked}

module _ {B S U : Type 0} (io : IoService (Handler B) S) (q : Queue io)
    (run : B → World B S U → World B S U × Result) (note : B → U → U) (tame : IsTame note run)
    (self l : ℕ) (objects : ℕ → Object) where
  reach_ranked :
      (m : Mailbox B U) {s t : Removal B S U} (r : Reach io run self l s t)
      → Ranked io q run note tame self l objects m s
      → (m' : Mailbox B U) × Ranked io q run note tame self l objects m' t
        × (left io q run note tame self l objects m' t + moves io run self l r
            ≤ left io q run note tame self l objects m s)
  reach_ranked m (here e) v = rw e (m, v, omega arith)
  reach_ranked m {s} (next {t} {u} r st) v =
      let (m1, v1, less1) = reach_ranked m r v in
      let (m2, v2, less2) = step_ranked io q run note tame self l objects m1 t u st v1 in
      (m2, v2, omega (arith, less1, less2))

  -- Until the caller is back, the thread or the caller can make a step.
  can_move :
      (m : Mailbox B U) (s : Removal B S U)
      → Ranked io q run note tame self l objects m s
      → (s.caller ≡ removed)
        ⊎ ((t : Removal B S U) × (st : Step io run self l s t) × (is_move io run self l st ≡ 1))
  can_move m s v = elim (fine_cases s.caller s.worker m.owner m.items v.place) [
    | inl e ↦ inl e
    | inr (inl (c, k)) ↦ inr (record s { caller = removed }, joins c k refl, refl)
    | inr (inr p) ↦
        let (now, own) = fine_running s.caller m.owner m.items (rw p at v.place) in
        elim own [
          | inl none' ↦ inr (
            record s { world = leave_run l s.world; worker = finished },
            leaves p (q.next_stopped _ (v.shut none')) (v.stands.0.work ∙ ap owned none') refl,
            refl,
          )
          | inr (i, o, h) ↦
              let (y, ys, e) = has_halt_first m.items h in
              let (x, taken, rest, still) =
                q.next_ready (s.world.loops l).service _ _
                  (v.stands.0.open' (v.stands.0.started ∙ ap owned o))
                  (v.stands.0.queue ∙ ap (map (handler l)) e) in
              let (m', stands, fine', shut, place, less) =
                took io q run note tame self l objects m.items i m s.world (handler l y) x taken
                  refl o h v.stands in
              inr (
                record s {
                  world = (handle io run self (handler l y) (set_service io l x s.world)).0;
                },
                takes (handler l y) x p taken fine' refl,
                refl,
              )
        ]
  ]

  begins_ranked :
      (post_stop : Bool) (i : ℕ) (m : Mailbox B U) (w : World B S U)
      → Refines io q l objects m w
      → m.owner ≡ some i
      → (m' : Mailbox B U) × Ranked io q run note tame self l objects m' (record {
        world = remove_from_thread io run self l post_stop w;
        worker = in_run;
        caller = joining;
      })
        × (rank joining in_run m'.owner m'.items ≤ length m.items + 3)
  unfolding remove_from_thread post_stop_event
  begins_ranked true i m w v o =
      let (h, less) = until-append m.items in
      (
        record m { items = m.items ++ halt ∷ [] },
        record {
          stands = post-Refines io q l objects halt m w v;
          shut = λ e. absurd (cc (sym e ∙ o));
          place = rw o h;
        },
        rw o (omega (arith, less)),
      )
  begins_ranked false i m w v o = (
    record m { owner = none },
    record {
      stands = stop-Refines io q l objects m w v;
      shut = λ e. (stop_lem io run note tame q l w).1;
      place = refl;
    },
    omega arith,
  )

  -- RemoveFromThread of a loop whose thread is in asio's `run`, with or without `post_stop`, returns:
  -- in whatever order the thread and others take their steps, where others may post more slots and
  -- stop events or call Stop, the thread and the end of the join make no more steps than there were
  -- handlers queued, and three; and as long as the caller has not come back, one of those steps can
  -- be made.
  pub remove_from_thread_returns :
      (post_stop : Bool) (i : ℕ) (m : Mailbox B U) (w : World B S U) {t : Removal B S U}
      → Refines io q l objects m w
      → m.owner ≡ some i
      → (r : Reach io run self l
          (record {
            world = remove_from_thread io run self l post_stop w;
            worker = in_run;
            caller = joining;
          })
          t)
      → (moves io run self l r ≤ length m.items + 3)
        × ((t.caller ≡ removed)
            ⊎ ((u : Removal B S U) × (st : Step io run self l t u) × (is_move io run self l st
                  ≡ 1)))
  remove_from_thread_returns b i m w {t} v o r =
      let (m1, start, less) = begins_ranked b i m w v o in
      let (m2, v2, less2) = reach_ranked m1 r start in
      (omega (arith, less, less2), can_move m2 t v2)
