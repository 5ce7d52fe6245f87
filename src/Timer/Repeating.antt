-- ===== src/Timer/Repeating.antt =====
-- A timer that repeats (TimeoutHandler of ks/KsEventLoop.cpp): its timeouts one after the other, for
-- slots that change only what belongs to the user.
use mathlib.Core.List.{append-nil, append_assoc}
use ks_core.Base.{
  ℕ, zero, suc, ◌≡◌, refl, sym, ap, ◌∙◌, Bool, true, false, List, [], ◌∷◌, ◌++◌, map, All, keep_if,
  length-keep_if-le, if◌then◌else◌, Bool-cases, inl, inr, arith,
}
use ks_core.Host.{Result, ok}
use ks_core.Signal.{ManagedConnection, Signal}
use ks_core.Signal.Emit.{Progress, returned, waiting, thrown, emit}
use ks_core.Signal.Delivery.{calls}
use ks_core.Signal.Invariant.{IsKept, emit-keeps}
use ks_core.Asio.{IoService, Queue}
use ks_core.World.{Handler, timeout_handler, Object, World}
use ks_core.EventLoop.Post.{host, post, post_event}
use ks_core.EventLoop.Handlers.{completed, settle, rearm, handle_timeout, handle}
use ks_core.EventLoop.Posting.{IsTame}
use ks_core.Timer.Timeout.{IsPlain, timeout_emits}

module _ {A B : Type 0} (alive : ℕ → Bool) (loop : ℕ → ℕ) (args : A) where
  pub calls-keep_if :
      (cs : List (ManagedConnection A B))
      → calls alive loop args (keep_if (λ c. alive c.context) cs) ≡ calls alive loop args cs
  calls-keep_if [] = refl
  calls-keep_if (c ∷ cs) = elim (Bool-cases (alive c.context)) [
    | inl e ↦ rw (e, e, calls-keep_if cs) refl
    | inr e ↦ rw (e, calls-keep_if cs) refl
  ]

pub All-keep_if :
    {A : Type 0} (P : A → Type 0) (p : A → Bool) (xs : List A) → All P xs → All P (keep_if p xs)
All-keep_if P p [] h = h
All-keep_if P p (x ∷ xs) h = elim (Bool-cases (p x)) [
  | inl e ↦ rw e (h.0, All-keep_if P p xs h.1)
  | inr e ↦ rw e (All-keep_if P p xs h.1)
]

-- `n` times the same list.
abbrev pub times : {B : Type 0} → ℕ → List B → List B
times zero xs = []
times (suc n) xs = xs ++ times n xs

-- The calls that a timeout makes with such a signal, by which objects live, and on which loops.
abbrev pub due_calls : {B : Type 0} → (ℕ → Bool) → (ℕ → ℕ) → Signal (Unit {0}) B → List B
due_calls alive loop s = map (λ c. c.fn.slot tt) s.unmanaged ++ calls alive loop tt s.managed

module _ {B S U : Type 0} where
  -- The signal of the TimerInfo's timer, and the calls that are due at each timeout.
  abbrev pub signal_of : ℕ → World B S U → Signal (Unit {0}) B
  signal_of i w = (w.timers (w.infos i).timer).signal_timeout

  abbrev pub called : ℕ → World B S U → List B
  called i w = due_calls (λ o. (w.objects o).alive) (λ o. (w.objects o).event_loop) (signal_of i w)

module _ {B S U : Type 0} (io : IoService (Handler B) S)
    (run : B → World B S U → World B S U × Result) where
  -- The worlds after one timeout of TimerInfo `i` after the other.
  abbrev pub timeouts : ℕ → ℕ → ℕ → World B S U → World B S U
  timeouts self i zero w = w
  timeouts self i (suc n) w = timeouts self i n (handle io run self (timeout_handler i false) w).0

module _ {B S U : Type 0} (io : IoService (Handler B) S)
    (run : B → World B S U → World B S U × Result) (note : B → U → U) (tame : IsTame note run) where
  -- What a timeout leaves as it is.
  abbrev IsSteady : World B S U → World B S U → Type 0
  IsSteady w v = (v.objects ≡ w.objects) × (v.infos ≡ w.infos)

  IsSteady-IsKept : (w : World B S U) → IsKept (host io run) (IsSteady w)
  unfolding post_event post
  IsSteady-IsKept w = record {
    kept_run =
        λ b v p. (ap (λ r. r.0.objects) (tame b v) ∙ p.0, ap (λ r. r.0.infos) (tame b v) ∙ p.1);
    kept_slot = λ l c v p. p;
    kept_blocking = λ l f c v p. p;
    kept_flag = λ v p. p;
  }

  settle-IsSteady :
      (w : World B S U) (t : ℕ) (r : World B S U × Progress (Unit {0}) B)
      → IsSteady w r.0
      → IsSteady w (settle io run t r).0
  unfolding settle
  settle-IsSteady w t (v, returned s) p = p
  settle-IsSteady w t (v, waiting f cs n) p = p
  settle-IsSteady w t (v, thrown e) p = p

  timeout-IsSteady :
      (self i : ℕ) (w : World B S U)
      → (w.infos i).canceled ≡ false
      → (w.infos i).repeat ≡ true
      → (w.objects (w.infos i).timer).alive ≡ true
      → IsSteady w (handle io run self (timeout_handler i false) w).0
  unfolding handle handle_timeout rearm
  timeout-IsSteady self i w live again there =
      let t = (w.infos i).timer in
      let s = (w.timers t).signal_timeout in
      rw (live, there, again, handle, handle_timeout)
        (settle-IsSteady w t (emit (host io run) self tt s (rearm io run i w)) (
          emit-keeps (host io run) (IsSteady w) (IsSteady-IsKept w) self tt s (rearm io run i w)
            (refl, refl)))

  module _ (q : Queue io) (log : U → List B)
      (logs : (b : B) (u : U) → log (note b u) ≡ log u ++ b ∷ []) where
    -- A timeout that is followed by another one.
    record Ready (i : ℕ) (w : World B S U) : Type 0 where
      live : (w.infos i).canceled ≡ false
      again : (w.infos i).repeat ≡ true
      there : (w.objects (w.infos i).timer).alive ≡ true
      plain : IsPlain io run note tame q log logs (signal_of i w)

    -- Such a timeout is followed by one with the same calls.
    timeout-Ready :
        (self i : ℕ) (w : World B S U)
        → Ready i w
        → let r = handle io run self (timeout_handler i false) w in
          Ready i r.0
          × (r.1 ≡ completed ok)
          × (log r.0.user ≡ log w.user ++ called i w)
          × (called i r.0 ≡ called i w)
          × (((r.0.timers (r.0.infos i).timer)).active ≡ (w.timers (w.infos i).timer).active)
    timeout-Ready self i w r =
        let v = (handle io run self (timeout_handler i false) w).0 in
        let t = (w.infos i).timer in
        let alive : ℕ → Bool = λ o. (w.objects o).alive in
        let loop : ℕ → ℕ = λ o. (w.objects o).event_loop in
        let managed = (signal_of i w).managed in
        let (objects, infos) = timeout-IsSteady self i w r.live r.again r.there in
        let ((done, signal, logged, queue), active, loops) =
          timeout_emits io run note tame q log logs self i 0 w r.live r.there r.plain in
        let same : signal_of i v ≡ record (signal_of i w) {
          managed = keep_if (λ c. alive c.context) (signal_of i w).managed;
        } =
          ap (λ f. (v.timers (f i).timer).signal_timeout) infos ∙ signal in
        (
          record {
            live = ap (λ f. (f i).canceled) infos ∙ r.live;
            again = ap (λ f. (f i).repeat) infos ∙ r.again;
            there =
                ap (λ f. (v.objects (f i).timer).alive) infos
                ∙ ap (λ f. (f t).alive) objects
                ∙ r.there;
            plain = rw same (
              r.plain.0,
              All-keep_if _ (λ c. alive c.context) managed r.plain.1,
              omega (arith, length-keep_if-le (λ c. alive c.context) managed, r.plain.2),
            );
          },
          done,
          logged,
          ap
                (λ (f : ℕ → Object).
                  due_calls (λ o. (f o).alive) (λ o. (f o).event_loop) (signal_of i v))
                objects
              ∙ ap (due_calls alive loop) same
              ∙ ap (λ l. map (λ c. c.fn.slot tt) (signal_of i w).unmanaged ++ l)
                  (calls-keep_if alive loop tt managed),
          ap (λ f. (v.timers (f i).timer).active) infos
              ∙ active
              ∙ ap (λ b. if b then (w.timers t).active else false) r.again,
        )

    fires_again :
        (self i n : ℕ) (w : World B S U)
        → Ready i w
        → let v = timeouts io run self i n w in
          (log v.user ≡ log w.user ++ times n (called i w))
          × ((v.timers (v.infos i).timer).active ≡ (w.timers (w.infos i).timer).active)
          × ((handle io run self (timeout_handler i false) v).1 ≡ completed ok)
    fires_again self i zero w r =
        (sym (append-nil (log w.user)), refl, (timeout-Ready self i w r).1)
    fires_again self i (suc n) w r =
        let v = (handle io run self (timeout_handler i false) w).0 in
        let (ready, done, logged, same, active) = timeout-Ready self i w r in
        let (later, still, next) = fires_again self i n v ready in
        (
          later
              ∙ ap (λ c. log v.user ++ times n c) same
              ∙ ap (λ l. l ++ times n (called i w)) logged
              ∙ append_assoc (log w.user) (called i w) (times n (called i w)),
          still ∙ active,
          next,
        )

    -- A TimerInfo that repeats and is not cancelled, whose timer is alive and has a plain signal: of
    -- its timeouts, however many there are, each returns and calls every unmanaged connection and
    -- every direct one with a living context once, in order, and the timer is as active as it was.
    pub repeating_fires :
        (self i n : ℕ) (w : World B S U)
        → (w.infos i).canceled ≡ false
        → (w.infos i).repeat ≡ true
        → (w.objects (w.infos i).timer).alive ≡ true
        → IsPlain io run note tame q log logs (signal_of i w)
        → let v = timeouts io run self i n w in
          (log v.user ≡ log w.user ++ times n (called i w))
          × ((v.timers (v.infos i).timer).active ≡ (w.timers (w.infos i).timer).active)
          × ((handle io run self (timeout_handler i false) v).1 ≡ completed ok)
    repeating_fires self i n w live again there plain =
        fires_again self i n w (record { live = live; again = again; there = there; plain = plain })
