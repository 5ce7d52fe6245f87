-- ===== src/Timer/Session/Ticking.antt =====
-- A repeating timer between its timeouts.
use ks_core.Base.{
  ℕ, ◌≤◌, ◌≡◌, refl, sym, ap, ◌∙◌, Bool, true, false, some, List, [], ◌∷◌, ◌++◌, length, map,
  keep_if, length-keep_if-le, arith, Bool-cases, inl, inr,
}
use ks_core.Host.{Result}
use ks_core.Signal.{ManagedConnection, Signal}
use ks_core.Asio.{IoService, Queue, Waits}
use ks_core.World.{Handler, timeout_handler, Object, Timer, World}
use ks_core.EventLoop.Post.{find_timer}
use ks_core.EventLoop.Posting.{IsTame}
use ks_core.EventLoop.Delivered.{callbacks}
use ks_core.Timer.Timeout.{IsPlain}
use ks_core.Timer.Repeating.{signal_of, due_calls, calls-keep_if, All-keep_if}
use ks_core.Timer.Session.Kept.{IsWaiting, IsIdle}
use ks_core.Timer.Session.Round.{due, Fired}

module _ {A B : Type 0} (alive : ℕ → Bool) (loop : ℕ → ℕ) (args : A) (k : ℕ) where
  callbacks-keep_if :
      (cs : List (ManagedConnection A B))
      → callbacks alive loop args k (keep_if (λ c. alive c.context) cs)
        ≡ callbacks alive loop args k cs
  callbacks-keep_if [] = refl
  callbacks-keep_if (c ∷ cs) = elim (Bool-cases (alive c.context)) [
    | inl e ↦ rw (e, e, callbacks-keep_if cs) refl
    | inr e ↦ rw (e, callbacks-keep_if cs) refl
  ]

  pub length-callbacks-le :
      (cs : List (ManagedConnection A B)) → length (callbacks alive loop args k cs) ≤ length cs
  length-callbacks-le [] = omega arith
  length-callbacks-le (c ∷ cs) = ground (arith, length-callbacks-le cs)

module _ {B S U : Type 0} (io : IoService (Handler B) S) (q : Queue io) (ws : Waits io q)
    (run : B → World B S U → World B S U × Result) (note : B → U → U) (tame : IsTame note run)
    (log : U → List B) (logs : (b : B) (u : U) → log (note b u) ≡ log u ++ b ∷ [])
    (self k i t : ℕ) where
  -- Between two timeouts: loop `k` is idle, and the TimerInfo `i` of an active timer waits.
  pub record IsTicking (w : World B S U) : Type 0 where
    pub idle' : IsIdle io q ws run note tame self k i w
    pub waits : ws.waiter (w.loops k).service i ≡ some (timeout_handler i)
    pub here : (w.infos i).loop ≡ k
    pub mine : (w.infos i).timer ≡ t
    pub home : (w.objects t).event_loop ≡ k
    pub named : (w.infos i).id ≡ (w.objects t).id
    pub live : (w.infos i).canceled ≡ false
    pub again : (w.infos i).repeat ≡ true
    pub there : (w.objects (w.infos i).timer).alive ≡ true
    pub found : find_timer (w.infos i).id (w.loops k).list_timers ≡ some i
    pub active : (w.timers (w.infos i).timer).active ≡ true
    pub plain : IsPlain io run note tame q log logs (signal_of i w)

  -- The calls of a timeout, by objects and signal.
  abbrev due_of : (ℕ → Object) → Signal (Unit {0}) B → List B
  due_of objects s =
      let alive : ℕ → Bool = λ o. (objects o).alive in
      let loop : ℕ → ℕ = λ o. (objects o).event_loop in
      due_calls alive loop s ++ map (λ c. c.body) (callbacks alive loop tt k s.managed)

  due_of-kept :
      (objects : ℕ → Object) (s : Signal (Unit {0}) B)
      → due_of objects (record s { managed = keep_if (λ c. (objects c.context).alive) s.managed })
        ≡ due_of objects s
  due_of-kept objects s =
      rw
        (
          calls-keep_if (λ o. (objects o).alive) (λ o. (objects o).event_loop) tt s.managed,
          callbacks-keep_if (λ o. (objects o).alive) (λ o. (objects o).event_loop) tt k s.managed,
        )
        refl

  -- After the handler and the slots that it posted, the timer waits again.
  pub still-IsTicking :
      (w v w' : World B S U)
      → IsTicking w
      → Fired io q ws run note tame log logs self k i w v
      → IsWaiting io q ws run note tame self k i v w'
      → IsIdle io q ws run note tame self k i w'
      → IsTicking w'
        × (due io q ws run note tame log logs self k i w'
            ≡ due io q ws run note tame log logs self k i w)
        × (length (signal_of i w').managed ≤ length (signal_of i w).managed)
  still-IsTicking w v w' x f p end =
      let m = (w.infos i).timer in
      let managed = (signal_of i w).managed in
      let infos = p.infos ∙ f.infos in
      let objects = p.objects ∙ f.objects in
      let same =
        ap (λ (g : ℕ → Timer B). (g (w'.infos i).timer).signal_timeout) p.timers
        ∙ ap (λ g. (v.timers (g i).timer).signal_timeout) p.infos
        ∙ f.signal in
      (
        record {
          idle' = end;
          waits = p.waits;
          here = ap (λ g. (g i).loop) infos ∙ x.here;
          mine = ap (λ g. (g i).timer) infos ∙ x.mine;
          home = ap (λ g. (g t).event_loop) objects ∙ x.home;
          named = ap (λ g. (g i).id) infos ∙ x.named ∙ sym (ap (λ g. (g t).id) objects);
          live = ap (λ g. (g i).canceled) infos ∙ x.live;
          again = ap (λ g. (g i).repeat) infos ∙ x.again;
          there =
              ap (λ g. (w'.objects (g i).timer).alive) infos
              ∙ ap (λ g. (g m).alive) objects
              ∙ x.there;
          found =
              ap (λ g. find_timer (g i).id (w'.loops k).list_timers) infos
              ∙ ap (find_timer (w.infos i).id) (p.list_timers ∙ f.list_timers)
              ∙ x.found;
          active =
              ap (λ g. (w'.timers (g i).timer).active) infos
              ∙ ap (λ (g : ℕ → Timer B). (g m).active) p.timers
              ∙ f.active
              ∙ x.active;
          plain = rw same (
            x.plain.0,
            All-keep_if _ (λ c. (w.objects c.context).alive) managed x.plain.1,
            omega (arith, length-keep_if-le (λ c. (w.objects c.context).alive) managed, x.plain.2),
          );
        },
        ap (λ g. due_of g (signal_of i w')) objects
            ∙ ap (due_of w.objects) same
            ∙ due_of-kept w.objects (signal_of i w),
        rw same (length-keep_if-le (λ c. (w.objects c.context).alive) managed),
      )
