-- ===== src/EventLoop/Removal/Rounds.antt =====
-- One round of asio's `run` in the thread that RemoveFromThread (ks/KsEventLoop.cpp) waits for.
use ks_core.Base.{
  ℕ, suc, ◌+◌, ◌≤◌, ◌≡◌, refl, sym, ap, ◌∙◌, true, none, some, List, [], ◌∷◌, map, arith,
}
use mathlib.Core.Path.{subst}
use ks_core.Host.{Result, ok}
use ks_core.Asio.{IoService, Queue}
use ks_core.World.{Handler, stop_handler, Object, World}
use ks_core.EventLoop.{stop}
use ks_core.EventLoop.Post.{set_service}
use ks_core.EventLoop.Handlers.{Handled, completed, handle}
use ks_core.EventLoop.Posting.{IsTame, noted, handle_slot}
use ks_core.EventLoop.Stopping.{stop_lem}
use ks_core.EventLoop.Launch.{in_run}
use ks_core.EventLoop.Mailbox.{Item, slot_call, halt, Mailbox}
use ks_core.EventLoop.Refinement.Stands.{handler, owned, Refines, stop-Refines, taken-Refines}
use ks_core.EventLoop.Removal.{joining}
use ks_core.EventLoop.Removal.Ranks.{has_halt, until, rank, fine}

module _ {B S U : Type 0} (io : IoService (Handler B) S) (q : Queue io)
    (run : B → World B S U → World B S U × Result) (note : B → U → U) (tame : IsTame note run)
    (self l : ℕ) (objects : ℕ → Object) where
  handle_stop :
      (w : World B S U) → handle io run self (stop_handler l) w ≡ (stop io l w, completed ok)
  unfolding handle
  handle_stop w = refl

  -- What becomes of the loop when a handler has run, if at most `n` steps were left before.
  abbrev pub Took : ℕ → World B S U × Handled B → Type 0
  Took n (w, r) =
      (m : Mailbox B U) × Refines io q l objects m w
      × (r ≡ completed ok)
      × (m.owner ≡ none → q.stopped (w.loops l).service ≡ true)
      × (fine joining in_run m.owner m.items ≡ true)
      × (suc (rank joining in_run m.owner m.items) ≤ n)

  item-Took :
      (y : Item B) (xs : List (Item B)) (t : ℕ) (m : Mailbox B U) (w : World B S U) (v : S)
      → m.owner ≡ some t
      → has_halt (y ∷ xs) ≡ true
      → Refines io q l objects (record m { items = xs }) (set_service io l v w)
      → Took (until (y ∷ xs) + 3) (handle io run self (handler l y) (set_service io l v w))
  item-Took (slot_call c) xs t m w v o h (s, same, user) =
      let ran = handle_slot io run note tame c self (set_service io l v w) in
      subst (λ p. Took (suc (until xs) + 3) p) (sym ran)
        (
          record m { items = xs; user = noted note objects (c ∷ []) m.user },
          (
            s,
            same,
            ap (λ z. noted note z (c ∷ []) w.user) same ∙ ap (noted note objects (c ∷ [])) user,
          ),
          refl,
          λ none'. absurd (cc (sym none' ∙ o)),
          rw o h,
          rw o (omega arith),
        )
  item-Took halt xs t m w v o h r =
      subst (λ p. Took 3 p) (sym (handle_stop (set_service io l v w)))
        (
          record m { items = xs; owner = none },
          stop-Refines io q l objects (record m { items = xs }) (set_service io l v w) r,
          refl,
          λ z. (stop_lem io run note tame q l (set_service io l v w)).1,
          refl,
          omega arith,
        )

  pub took :
      (xs : List (Item B)) (t : ℕ) (m : Mailbox B U) (w : World B S U) (x : Handler B) (v : S)
      → io.next (w.loops l).service ≡ some (x, v)
      → m.items ≡ xs
      → m.owner ≡ some t
      → has_halt xs ≡ true
      → Refines io q l objects m w
      → Took (until xs + 3) (handle io run self x (set_service io l v w))
  took [] t m w x v taken e o h r = cc
  took (y ∷ xs) t m w x v taken e o h (s, same, user) =
      let (v', taken', rest, still) =
        q.next_ready (w.loops l).service _ _ (s.open' (s.started ∙ ap owned o))
          (s.queue ∙ ap (map (handler l)) e) in
      let new : Handler B × S = (handler l y, v') in
      let pair : new ≡ (x, v) = cc (taken, taken') in
      subst (λ p. Took (until (y ∷ xs) + 3) (handle io run self p.0 (set_service io l p.1 w))) pair
        (item-Took y xs t m w v' o h
          (taken-Refines io q l objects y xs m w v' (s, same, user) rest still))
