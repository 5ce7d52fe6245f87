-- ===== src/EventLoop/Removal.antt =====
-- EventLoop::RemoveFromThread (ks/KsEventLoop.cpp): the loop's thread `self` is in asio's `run`; the
-- caller stops the loop, or posts a stop event, and joins the thread; others post meanwhile.
mod Ranks
mod Rounds
mod Steps
mod Returns
mod Tests
use ks_core.Base.{ℕ, ◌+◌, ◌≡◌, Bool, false, none, some, if◌then◌else◌}
use ks_core.Event.{Callback, slot_event}
use ks_core.Host.{Error, Result, ok, threw}
use ks_core.Asio.{IoService}
use ks_core.World.{Handler, World}
use ks_core.EventLoop.{leave_run, stop}
use ks_core.EventLoop.Post.{set_service, post_event, post_stop_event}
use ks_core.EventLoop.Handlers.{completed, handle}
use ks_core.EventLoop.Launch.{Worker, in_run, finished, terminated}

pub data Remover : Type 0 where
  outside joining removed : Remover

pub record Removal (B S U : Type 0) : Type 0 where
  pub world : World B S U
  pub worker : Worker
  pub caller : Remover

module _ {B S U : Type 0} (io : IoService (Handler B) S)
    (run : B → World B S U → World B S U × Result) (self l : ℕ) where
  -- Up to the call of `join`.
  unfoldable pub remove_from_thread : Bool → World B S U → World B S U
  unfolding stop post_stop_event
  remove_from_thread post_stop w = if post_stop then post_stop_event io l w else stop io l w

  pub data Step (s : Removal B S U) : Removal B S U → Type 0 where
    -- asio's `run` takes the next handler, and it returns
    takes :
        (x : Handler B) (v : S) {t : Removal B S U}
        → s.worker ≡ in_run
        → io.next (s.world.loops l).service ≡ some (x, v)
        → (handle io run self x (set_service io l v s.world)).1 ≡ completed ok
        → t ≡ record s { world = (handle io run self x (set_service io l v s.world)).0 }
        → Step s t
    -- it throws, and the exception leaves the thread's function
    throws :
        (x : Handler B) (v : S) (e : Error) {t : Removal B S U}
        → s.worker ≡ in_run
        → io.next (s.world.loops l).service ≡ some (x, v)
        → (handle io run self x (set_service io l v s.world)).1 ≡ completed (threw e)
        → t ≡ record s {
          world = (handle io run self x (set_service io l v s.world)).0;
          worker = terminated;
        }
        → Step s t
    -- nothing is ready and the loop has no work: asio's `run` returns, and so does `Run`
    leaves :
        {t : Removal B S U}
        → s.worker ≡ in_run
        → io.next (s.world.loops l).service ≡ none
        → (s.world.loops l).work ≡ false
        → t ≡ record s { world = leave_run l s.world; worker = finished }
        → Step s t
    posts :
        (c : Callback B) {t : Removal B S U}
        → t ≡ record s { world = post_event io l (slot_event c) s.world }
        → Step s t
    posts_stop :
        {t : Removal B S U} → t ≡ record s { world = post_stop_event io l s.world } → Step s t
    stops : {t : Removal B S U} → t ≡ record s { world = stop io l s.world } → Step s t
    removes :
        (post_stop : Bool) {t : Removal B S U}
        → s.caller ≡ outside
        → t ≡ record s { world = remove_from_thread post_stop s.world; caller = joining }
        → Step s t
    joins :
        {t : Removal B S U}
        → s.caller ≡ joining
        → s.worker ≡ finished
        → t ≡ record s { caller = removed }
        → Step s t

  pub data Reach (s : Removal B S U) : Removal B S U → Type 0 where
    here : {t : Removal B S U} → t ≡ s → Reach s t
    next : {t u : Removal B S U} → Reach s t → Step t u → Reach s u

  -- A step of the loop's thread, or the end of the caller's `join`.
  abbrev pub is_move : {s t : Removal B S U} → Step s t → ℕ
  is_move (takes x v p e r k) = 1
  is_move (throws x v y p e r k) = 1
  is_move (leaves p e r k) = 1
  is_move (posts c k) = 0
  is_move (posts_stop k) = 0
  is_move (stops k) = 0
  is_move (removes b p k) = 0
  is_move (joins p q k) = 1

  abbrev pub moves : {s t : Removal B S U} → Reach s t → ℕ
  moves (here e) = 0
  moves (next r st) = moves r + is_move st
