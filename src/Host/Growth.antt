-- ===== src/Host/Growth.antt =====
-- How a host whose user code is quiet grows: the events that a queue gets, and the calls that are
-- logged.
use mathlib.Core.List.{append-nil, append_assoc}
use ks_core.Base.{ℕ, ◌≡◌, refl, sym, ap, ◌∙◌, List, [], ◌∷◌, ◌++◌, arith, ◌==◌, if◌then◌else◌}
use ks_core.Event.{Event, Callback, slot_event}
use ks_core.Host.{Host, Quiet}

module _ {B W : Type 0} (h : Host B W) (q : Quiet h) where
  -- From `w` to `w'` the queue of loop `k` grew by `events`, the log by `bodies`, and all objects
  -- kept their life and their loop.
  abbrev pub Grew : ℕ → W → W → List (Event B) → List B → Type 0
  Grew k w w' events bodies =
      (h.alive w' ≡ h.alive w)
      × (h.event_loop w' ≡ h.event_loop w)
      × (q.pending w' k ≡ q.pending w k ++ events)
      × (q.log w' ≡ q.log w ++ bodies)

  pub Grew-trans :
      (k : ℕ) (u v w : W) (es fs : List (Event B)) (bs cs : List B)
      → Grew k u v es bs
      → Grew k v w fs cs
      → Grew k u w (es ++ fs) (bs ++ cs)
  Grew-trans k u v w es fs bs cs (a, b, c, d) (a', b', c', d') = (
    a' ∙ a,
    b' ∙ b,
    c' ∙ ap (λ x. x ++ fs) c ∙ append_assoc (q.pending u k) es fs,
    d' ∙ ap (λ x. x ++ cs) d ∙ append_assoc (q.log u) bs cs,
  )

  pub run-Grew : (k : ℕ) (b : B) (w : W) → Grew k w (h.run b w).0 [] (b ∷ [])
  run-Grew k b w =
      (q.run_alive b w, q.run_loop b w, q.run_pending b w k ∙ sym (append-nil _), q.run_log b w)

  pub post-Grew :
      (k l : ℕ) (c : Callback B) (w : W)
      → Grew k w (h.post_event l (slot_event c) w) (if l == k then slot_event c ∷ [] else []) []
  post-Grew k l c w = (
    q.post_alive l _ w,
    q.post_loop l _ w,
    q.post_pending l k (slot_event c) w refl ∙ ground (arith, append-nil (q.pending w k)),
    q.post_log l _ w ∙ sym (append-nil _),
  )
