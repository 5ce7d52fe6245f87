-- ===== src/EventLoop/Launch.antt =====
-- EventLoop::LaunchInThread (ks/KsEventLoop.cpp): a new thread `self` calls `Start` and `Run`, and
-- the caller waits in `waitUntilRunning`. Their steps, and `Stop` from anywhere, in any order.
use ks_core.Base.{ℕ, ◌≡◌, refl, ◌⊎◌, Bool, true, false, not, arith, update_self, ==_refl}
use ks_core.Host.{Error, ok, threw}
use ks_core.Asio.{IoService}
use ks_core.World.{Handler, World}
use ks_core.EventLoop.{ensure_active, enter_run, leave_run, start, stop}
use ks_core.EventLoop.Lifecycle.{IsWellFormed}

-- Where the new thread is; an exception that leaves its function ends the program.
pub data Worker : Type 0 where
  spawned begun in_run finished terminated : Worker

pub data Caller : Type 0 where
  waits launched : Caller

pub record Launch (B S U : Type 0) : Type 0 where
  pub world : World B S U
  pub worker : Worker
  pub caller : Caller

-- The tests of the three waiting loops: whether a thread that looks goes on.
unfoldable pub wait_until_started : {B S U : Type 0} → ℕ → World B S U → Bool
wait_until_started l w = (w.loops l).started

unfoldable pub wait_until_running : {B S U : Type 0} → ℕ → World B S U → Bool
wait_until_running l w = (w.loops l).running

unfoldable pub wait_until_stopped : {B S U : Type 0} → ℕ → World B S U → Bool
wait_until_stopped l w = not (w.loops l).started

module _ {B S U : Type 0} (io : IoService (Handler B) S) (self l : ℕ) where
  abbrev pub spawn : World B S U → Launch B S U
  spawn w = record { world = w; worker = spawned; caller = waits }

  pub data Step (s : Launch B S U) : Launch B S U → Type 0 where
    begins :
        {t : Launch B S U}
        → s.worker ≡ spawned
        → t ≡ record s { world = start io self l s.world; worker = begun }
        → Step s t
    enters :
        {t : Launch B S U}
        → s.worker ≡ begun
        → (enter_run self l s.world).1 ≡ ok
        → t ≡ record s { world = (enter_run self l s.world).0; worker = in_run }
        → Step s t
    dies :
        (e : Error) {t : Launch B S U}
        → s.worker ≡ begun
        → (enter_run self l s.world).1 ≡ threw e
        → t ≡ record s { worker = terminated }
        → Step s t
    -- asio's `run` has returned, since the loop's work is gone
    leaves :
        {t : Launch B S U}
        → s.worker ≡ in_run
        → (s.world.loops l).work ≡ false
        → t ≡ record s { world = leave_run l s.world; worker = finished }
        → Step s t
    -- a stop event that the new thread runs, or a call of `Stop` by any thread
    halts : {t : Launch B S U} → t ≡ record s { world = stop io l s.world } → Step s t
    wakes :
        {t : Launch B S U}
        → s.caller ≡ waits
        → wait_until_running l s.world ≡ true
        → t ≡ record s { caller = launched }
        → Step s t

  pub data Reach (s : Launch B S U) : Launch B S U → Type 0 where
    here : Reach s s
    next : {t u : Launch B S U} → Reach s t → Step t u → Reach s u

  -- `m_running` is set while the new thread is in `Run`, and the caller has not gone on before.
  record Inv (s : Launch B S U) : Type 0 where
    runs : (s.world.loops l).running ≡ true → s.worker ≡ in_run
    in_run_runs : s.worker ≡ in_run → (s.world.loops l).running ≡ true
    after : s.caller ≡ launched → (s.worker ≡ in_run) ⊎ (s.worker ≡ finished)

  Step-Inv : {s t : Launch B S U} → Step s t → Inv s → Inv t
  unfolding start stop enter_run leave_run wait_until_running
  Step-Inv (begins p e) v = rw e (ground arith)
  Step-Inv (enters p r e) v = rw e (ground arith)
  Step-Inv (dies x p r e) v = rw e (ground arith)
  Step-Inv (leaves p r e) v = rw e (ground arith)
  Step-Inv (halts e) v = rw e (ground arith)
  Step-Inv (wakes p r e) v = rw e (ground arith)

  Reach-Inv : {s t : Launch B S U} → Reach s t → Inv s → Inv t
  Reach-Inv here v = v
  Reach-Inv (next r st) v = Step-Inv st (Reach-Inv r v)

  -- When `LaunchInThread` returns, the new thread has entered asio's `run`, whoever has stopped the
  -- loop in the meantime, and has not died of an exception.
  pub launch_enters_run :
      (w : World B S U) {s : Launch B S U}
      → (w.loops l).running ≡ false
      → Reach (spawn w) s
      → s.caller ≡ launched
      → (s.worker ≡ in_run) ⊎ (s.worker ≡ finished)
  launch_enters_run w off r = (Reach-Inv r (ground arith)).after

  record IsHung (s : Launch B S U) : Type 0 where
    over : s.worker ≡ finished
    off : (s.world.loops l).running ≡ false
    still : s.caller ≡ waits

  Step-IsHung : {s t : Launch B S U} → Step s t → IsHung s → IsHung t
  unfolding stop wait_until_running
  Step-IsHung (begins p e) v = cc
  Step-IsHung (enters p r e) v = cc
  Step-IsHung (dies x p r e) v = cc
  Step-IsHung (leaves p r e) v = cc
  Step-IsHung (halts e) v = rw e (ground arith)
  Step-IsHung (wakes p r e) v = cc

  Reach-IsHung : {s t : Launch B S U} → Reach s t → IsHung s → IsHung t
  Reach-IsHung here v = v
  Reach-IsHung (next r st) v = Step-IsHung st (Reach-IsHung r v)

  started_loop :
      (w : World B S U)
      → IsWellFormed (w.loops l)
      → (w.loops l).started ≡ false
      → (ensure_active self ((start io self l w).loops l) ≡ ok)
  unfolding start ensure_active
  started_loop w f e = ground (arith, ==_refl self)

  entered : (w : World B S U) → ensure_active self (w.loops l) ≡ ok → (enter_run self l w).1 ≡ ok
  unfolding enter_run
  entered w e = rw (e, enter_run) refl

  no_work : (w : World B S U) → ((stop io l w).loops l).work ≡ false
  unfolding stop
  no_work w = rw (update_self w.loops l _) refl

  not_running : (w : World B S U) → ((leave_run l w).loops l).running ≡ false
  unfolding leave_run
  not_running w = rw (update_self w.loops l _) refl

  -- The new thread runs through `Start` and `Run` of a loop that is stopped meanwhile, before the
  -- caller looks at `m_running`.
  hung_world : World B S U → World B S U
  hung_world w = leave_run l (stop io l (enter_run self l (start io self l w)).0)

  hung : World B S U → Launch B S U
  hung w = record { world = hung_world w; worker = finished; caller = waits }

  -- `LaunchInThread` can hang: for every loop that is not started there is an order of steps, with
  -- one `Stop`, after which the caller waits, and goes on waiting whatever steps follow.
  pub launch_can_hang :
      (w : World B S U)
      → IsWellFormed (w.loops l)
      → (w.loops l).started ≡ false
      → (s : Launch B S U) × Reach (spawn w) s × ((t : Launch B S U) → Reach s t → t.caller ≡ waits)
  unfolding hung hung_world
  launch_can_hang w f e = (
    hung w,
    next
        (next
          (next (next here (begins refl refl)) (enters refl (entered _ (started_loop w f e)) refl))
          (halts refl))
        (leaves refl (no_work _) refl),
    λ t r. (Reach-IsHung r (record { over = refl; off = not_running _; still = refl })).still,
  )
