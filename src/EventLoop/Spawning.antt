-- ===== src/EventLoop/Spawning.antt =====
-- ProcessEvents (ks/KsEventLoop.cpp) with slots that post to the loop that runs them: asio's `poll`
-- goes on until nothing is ready, so that what a slot posts is run too, behind all that was queued.
use mathlib.Core.List.{map-append}
use ks_core.Base.{
  ℕ, zero, suc, ◌+◌, ◌<◌, ◌≤◌, ◌≡◌, refl, sym, ap, ◌∙◌, false, Option, none, some, List, [], ◌∷◌,
  ◌++◌, map, arith, if◌then◌else◌, Bool-cases, Option-cases, inl, inr, update_self,
}
use ks_core.Event.{Callback, slot_event}
use ks_core.Host.{Result, ok, call}
use ks_core.Asio.{IoService, Queue}
use ks_core.World.{Handler, event_handler, EventLoop, Object, World}
use ks_core.EventLoop.{ensure_active}
use ks_core.EventLoop.Post.{set_service}
use ks_core.EventLoop.Handlers.{completed, idle, handle, poll, process_events}
use ks_core.EventLoop.Posting.{lives, post_all, post_all-Grown}

module _ {B S U : Type 0} (io : IoService (Handler B) S) (l : ℕ) (note : B → U → U)
    (spawn : B → List (Callback B)) where
  -- User code that notes its call, and then posts slots to loop `l`.
  abbrev pub IsSpawning : (B → World B S U → World B S U × Result) → Type 0
  IsSpawning run =
      (b : B) (w : World B S U)
      → run b w ≡ (post_all io l (spawn b) (record w { user = note b w.user }), ok)

module _ {B U : Type 0} (note : B → U → U) (spawn : B → List (Callback B))
    (objects : ℕ → Object) where
  -- The reference: a queue, of which the first call is made, and what it posts goes to the end. A
  -- call that holds a dead object is none.
  abbrev pub drained : ℕ → List (Callback B) → U → Option U
  drained zero cs u = none
  drained (suc n) [] u = some u
  drained (suc n) (c ∷ cs) u =
      let more = drained n (cs ++ spawn c.body) (note c.body u) in
      let rest = drained n cs u in if lives note objects c.guard then more else rest

-- How many calls there can be, if `rank b` bounds those that follow from `b`.
abbrev pub weight : {B : Type 0} → (B → ℕ) → List (Callback B) → ℕ
weight rank [] = 0
weight rank (c ∷ cs) = suc (rank c.body) + weight rank cs

weight-append :
    {B : Type 0} (rank : B → ℕ) (xs ys : List (Callback B))
    → weight rank (xs ++ ys) ≡ weight rank xs + weight rank ys
weight-append rank [] ys = omega arith
weight-append rank (x ∷ xs) ys = omega (arith, weight-append rank xs ys)

module _ {B S U : Type 0} (io : IoService (Handler B) S) (q : Queue io) (self l : ℕ)
    (run : B → World B S U → World B S U × Result) (note : B → U → U)
    (spawn : B → List (Callback B)) (spawning : IsSpawning io l note spawn run) where
  abbrev slots : List (Callback B) → List (Handler B)
  slots = map λ c. event_handler (slot_event c)

  abbrev after : Callback B → World B S U → World B S U
  after c w =
      if lives note w.objects c.guard
      then post_all io l (spawn c.body) (record w { user = note c.body w.user })
      else w

  handle_spawning :
      (c : Callback B) (w : World B S U)
      → handle io run self (event_handler (slot_event c)) w ≡ (after c w, completed ok)
  unfolding handle call
  handle_spawning c w = elim (Option-cases c.guard) [
    | inl e ↦ rw (e, call) (ap (λ r. (r.0, completed r.1)) (spawning c.body w))
    | inr (o, e) ↦ elim (Bool-cases (w.objects o).alive) [
      | inl live ↦ rw (e, call) (rw live (ap (λ r. (r.0, completed r.1)) (spawning c.body w)))
      | inr gone ↦ rw (e, call) (rw gone refl)
    ]
  ]

  -- What holds of the world between two rounds.
  record Between (objects : ℕ → Object) (cs : List (Callback B)) (u : U) (w : World B S U)
      : Type 0 where
    queue : q.queued (w.loops l).service ≡ slots cs
    open' : q.stopped (w.loops l).service ≡ false
    objects' : w.objects ≡ objects
    user : w.user ≡ u

  spawned :
      (objects : ℕ → Object) (xs cs : List (Callback B)) (u : U) (w : World B S U)
      → Between objects cs u w
      → Between objects (cs ++ xs) u (post_all io l xs w)
  spawned objects xs cs u w v =
      let g =
        post_all-Grown io (λ b w. (record w { user = note b w.user }, ok)) note (λ b w. refl) q l xs
          w in
      record {
        queue =
            g.queue
            ∙ ap (λ ys. ys ++ slots xs) v.queue
            ∙ sym (map-append (λ c. event_handler (slot_event c)) cs xs);
        open' = g.open' ∙ v.open';
        objects' = g.objects ∙ v.objects';
        user = g.user ∙ v.user;
      }

  abbrev Drains : (ℕ → Object) → ℕ → List (Callback B) → U → World B S U → Type 0
  Drains objects n cs u w =
      (w' : World B S U) × (poll io run n self l w ≡ (w', idle))
      × (drained note spawn objects n cs u ≡ some w'.user)
      × (q.queued (w'.loops l).service ≡ [])

  no_more :
      (n : ℕ) (w : World B S U)
      → q.queued (w.loops l).service ≡ []
      → poll io run (suc n) self l w ≡ (w, idle)
  unfolding poll
  no_more n w e = rw (q.next_empty _ e, poll) refl

  -- One round.
  round :
      (c : Callback B) (n : ℕ) (w : World B S U) (t : S)
      → io.next (w.loops l).service ≡ some (event_handler (slot_event c), t)
      → poll io run (suc n) self l w ≡ poll io run n self l (after c (set_service io l t w))
  unfolding poll
  round c n w t e =
      let done = handle_spawning c (set_service io l t w) in
      rw (e, poll) (rw (ap (λ r. r.1) done) (ap (λ r. poll io run n self l r.0) done))

  module _ (objects : ℕ → Object) (rank : B → ℕ)
      (falls : (b : B) → weight rank (spawn b) ≤ rank b) where
    poll-Drains :
        (n : ℕ) (cs : List (Callback B)) (u : U) (w : World B S U)
        → weight rank cs < n
        → Between objects cs u w
        → Drains objects n cs u w
    poll-Drains zero cs u w m v = absurd (omega arith)
    poll-Drains (suc n) [] u w m v =
        (w, no_more n w v.queue, ap (λ x. some x) (sym v.user), v.queue)
    poll-Drains (suc n) (c ∷ cs) u w m v =
        let (t, taken, left, still) = q.next_ready (w.loops l).service _ _ v.open' v.queue in
        let at = update_self w.loops l (record (w.loops l) { service = t }) in
        let v1 : Between objects cs u (set_service io l t w) = record {
          queue = ap (λ (x : EventLoop S). q.queued x.service) at ∙ left;
          open' = ap (λ (x : EventLoop S). q.stopped x.service) at ∙ still;
          objects' = v.objects';
          user = v.user;
        } in
        elim (Bool-cases (lives note objects c.guard)) [
          | inl live ↦
              let w1 : World B S U = record (set_service io l t w) { user = note c.body w.user } in
              let v2 : Between objects cs (note c.body u) w1 = record {
                queue = v1.queue;
                open' = v1.open';
                objects' = v1.objects';
                user = ap (note c.body) v.user;
              } in
              let (w', ends, same, empty) =
                poll-Drains n (cs ++ spawn c.body) (note c.body u) (post_all io l (spawn c.body) w1)
                  (omega (arith, weight-append rank cs (spawn c.body), falls c.body))
                  (spawned objects (spawn c.body) cs (note c.body u) w1 v2) in
              let now : after c (set_service io l t w) ≡ post_all io l (spawn c.body) w1 =
                rw (ap (λ o. lives note o c.guard) v.objects' ∙ live) refl in
              (w', round c n w t taken ∙ ap (poll io run n self l) now ∙ ends, rw live same, empty)
          | inr gone ↦
              let (w', ends, same, empty) =
                poll-Drains n cs u (set_service io l t w) (omega arith) v1 in
              let now : after c (set_service io l t w) ≡ set_service io l t w =
                rw (ap (λ o. lives note o c.guard) v.objects' ∙ gone) refl in
              (w', round c n w t taken ∙ ap (poll io run n self l) now ∙ ends, rw gone same, empty)
        ]

    -- Slots that post more slots to the loop they run on, where `rank` bounds how many calls can
    -- follow from each: ProcessEvents of the loop's thread comes back, with an empty queue, when it
    -- has made all the calls that were queued and all that followed from them, in the order in which
    -- they came into the queue, and none that holds a dead object.
    pub process_events-drained :
        (n : ℕ) (cs : List (Callback B)) (w : World B S U)
        → w.objects ≡ objects
        → ensure_active self (w.loops l) ≡ ok
        → q.stopped (w.loops l).service ≡ false
        → q.queued (w.loops l).service ≡ map (λ c. event_handler (slot_event c)) cs
        → weight rank cs < n
        → (w' : World B S U) × (process_events io run n self l w ≡ (w', idle))
          × (drained note spawn objects n cs w.user ≡ some w'.user)
          × (q.queued (w'.loops l).service ≡ [])
    unfolding process_events
    process_events-drained n cs w same active o e room =
        let (w', ends, done, empty) =
          poll-Drains n cs w.user w room
            (record { queue = e; open' = o; objects' = same; user = refl }) in
        (w', rw (active, process_events) ends, done, empty)
