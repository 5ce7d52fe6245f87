-- ===== src/Signal/Delivery.antt =====
-- What one `Emit` delivers, where no connection is blocking and user code is quiet.
use mathlib.Core.List.{append-nil}
use native.Mathlib.Nat.{zero-add}
use ks_core.Base.{
  ℕ, ◌+◌, ◌%◌, ◌^◌, ◌<◌, ◌≡◌, ◌≢◌, refl, sym, ap, ◌∙◌, Bool, true, false, not, ◌&&◌, none, some,
  List, [], ◌∷◌, ◌++◌, arith, length, All, keep_if, map, ◌==◌, if◌then◌else◌, Bool-cases, ◌⊎◌, inl,
  inr,
}
use ks_core.Event.{Event, slot_event}
use ks_core.Host.{Host, ok, call, Quiet}
use ks_core.Host.Growth.{Grew, Grew-trans, run-Grew, post-Grew}
use ks_core.Signal.{
  ConnectionType, queued, blocking, Function, ManagedConnection, UnmanagedConnection, Signal,
  ConnectionType-cases,
}
use ks_core.Signal.Expiry.{dead, remove_expired-living}
use ks_core.Signal.Emit.{
  bind, Walk, at_end, returned, direct_invoke, emit_unmanaged, emit_managed, after_walk, emit,
}

abbrev pub is_queued : ConnectionType → Bool
is_queued queued = true
is_queued _ = false

module _ {A B : Type 0} (alive : ℕ → Bool) (loop : ℕ → ℕ) (args : A) where
  -- The events that the queue of loop `k` is to get: one for each queued connection with a living
  -- context there, in the order of the connections.
  abbrev pub posts : ℕ → List (ManagedConnection A B) → List (Event B)
  posts k [] = []
  posts k (c ∷ cs) =
      let rest = posts k cs in
      if alive c.context && is_queued c.type && loop c.context == k
      then slot_event (bind c.fn args) ∷ rest
      else rest

  -- The calls that are to be made at once.
  abbrev pub calls : List (ManagedConnection A B) → List B
  calls [] = []
  calls (c ∷ cs) =
      let rest = calls cs in
      if alive c.context && not (is_queued c.type) then c.fn.slot args ∷ rest else rest

-- A managed connection's wrapper guards the connection's own context, as every `Connect` makes it.
abbrev pub IsGuarded : {A B : Type 0} → ManagedConnection A B → Type 0
IsGuarded c = c.fn.guard ≡ some c.context

module _ {A B W : Type 0} (h : Host B W) (q : Quiet h) (self : ℕ) (args : A) where
  direct_invoke-Grew :
      (fn : Function A B) (w : W) (k : ℕ)
      → ((fn.guard ≡ none) ⊎ ((o : ℕ) × (fn.guard ≡ some o) × (h.alive w o ≡ true)))
      → ((direct_invoke h self args fn w).1 ≡ ok)
        × Grew h q k w (direct_invoke h self args fn w).0 [] (fn.slot args ∷ [])
  unfolding direct_invoke
  direct_invoke-Grew fn w k (inl e) = rw (e, call) (q.run_ok _ w, run-Grew h q k _ w)
  direct_invoke-Grew fn w k (inr (o, e, a)) = rw (e, call) (rw a (q.run_ok _ w, run-Grew h q k _ w))

  emit_unmanaged-Grew :
      (cs : List (UnmanagedConnection A B)) (w : W) (k : ℕ)
      → All (λ c. c.fn.guard ≡ none) cs
      → ((emit_unmanaged h self args cs w).1 ≡ ok)
        × Grew h q k w (emit_unmanaged h self args cs w).0 [] (map (λ c. c.fn.slot args) cs)
  unfolding emit_unmanaged
  emit_unmanaged-Grew [] w k g = (refl, (refl, refl, sym (append-nil _), sym (append-nil _)))
  emit_unmanaged-Grew (c ∷ cs) w k g =
      let (e, first) = direct_invoke-Grew c.fn w k (inl g.0) in
      let (r, rest) = emit_unmanaged-Grew cs (direct_invoke h self args c.fn w).0 k g.1 in
      rw (e, emit_unmanaged) (r, Grew-trans h q k w _ _ [] [] (c.fn.slot args ∷ []) _ first rest)

  -- The result of the walk over the managed connections.
  abbrev Walked :
      (ℕ → Bool) → (ℕ → ℕ) → ℕ → List (ManagedConnection A B) → ℕ → W → W × Walk A B → Type 0
  Walked alive loop k cs n w r =
      (r.1 ≡ at_end (n + dead alive cs))
      × Grew h q k w r.0 (posts alive loop args k cs) (calls alive loop args cs)

  posted :
      (k : ℕ) (alive : ℕ → Bool) (loop : ℕ → ℕ) (c : ManagedConnection A B)
      → (cs : List (ManagedConnection A B)) (u v w : W) → h.event_loop u ≡ loop
      → Grew h q k u v
          (if h.event_loop u c.context == k then slot_event (bind c.fn args) ∷ [] else [])
          []
      → Grew h q k v w (posts alive loop args k cs) (calls alive loop args cs)
      → Grew h q k u w
          (let rest = posts alive loop args k cs in
            if loop c.context == k then slot_event (bind c.fn args) ∷ rest else rest)
          (calls alive loop args cs)
  posted k alive loop c cs u v w l first rest = elim (Bool-cases (loop c.context == k)) [
    | inl e ↦ rw e (
        Grew-trans h q k u v w (slot_event (bind c.fn args) ∷ []) _ [] _
          (rw (ap (λ f. f c.context == k) l ∙ e) at first) rest)
    | inr e ↦
        rw e
          (Grew-trans h q k u v w [] _ [] _ (rw (ap (λ f. f c.context == k) l ∙ e) at first) rest)
  ]

  emit_managed-Walked :
      (alive : ℕ → Bool) (loop : ℕ → ℕ) (k : ℕ)
      → (cs : List (ManagedConnection A B)) (n : ℕ) (w : W) → h.alive w ≡ alive
      → h.event_loop w ≡ loop
      → All (λ c. (c.type ≢ blocking) × IsGuarded c) cs
      → n + length cs < 2 ^ 32
      → Walked alive loop k cs n w (emit_managed h self args cs n w)
  unfolding emit_managed
  emit_managed-Walked alive loop k [] n w a l g m =
      (ap at_end (omega arith), (refl, refl, sym (append-nil _), sym (append-nil _)))
  emit_managed-Walked alive loop k (c ∷ cs) n w a l g m = elim (Bool-cases (alive c.context)) [
    | inr gone ↦
        rw (ap (λ f. f c.context) a ∙ gone, gone, emit_managed)
          (let ih =
              emit_managed-Walked alive loop k cs ((n + 1) % 2 ^ 32) w a l g.1 (omega arith) in
            (ih.0 ∙ ap at_end (omega arith), ih.1))
    | inl live ↦ elim (ConnectionType-cases c.type) [
      | inl d ↦
          let (e, first) =
            direct_invoke-Grew c.fn w k (inr (c.context, g.0.1, ap (λ f. f c.context) a ∙ live)) in
          rw (ap (λ f. f c.context) a ∙ live, live, d, e, emit_managed)
            (let ih =
                emit_managed-Walked alive loop k cs n (direct_invoke h self args c.fn w).0
                  (first.0 ∙ a) (first.1 ∙ l) g.1 (omega arith) in
              (
                ih.0 ∙ ap at_end (omega arith),
                Grew-trans h q k w _ _ [] _ (c.fn.slot args ∷ []) _ first ih.1,
              ))
      | inr (inl d) ↦
          rw (ap (λ f. f c.context) a ∙ live, live, d, emit_managed)
            (let ih =
                emit_managed-Walked alive loop k cs n
                  (h.post_event (h.event_loop w c.context) (slot_event (bind c.fn args)) w)
                  (q.post_alive _ _ w ∙ a) (q.post_loop _ _ w ∙ l) g.1 (omega arith) in
              (
                ih.0 ∙ ap at_end (omega arith),
                posted k alive loop c cs w _ _ l (post-Grew h q k _ _ w) ih.1,
              ))
      | inr (inr d) ↦ absurd (g.0.0 d)
    ]
  ]

  -- Where no connection is blocking and user code is quiet, `Emit` returns. The queue of every
  -- event loop then holds one more event for each queued connection whose context is alive and
  -- belongs to that loop, in the order of the connections; every unmanaged connection, and then
  -- every direct connection whose context is alive, has been called once, in order; and exactly the
  -- connections with a dead context are gone from the signal.
  pub emit_delivers :
      (s : Signal A B) (w : W) (k : ℕ)
      → All (λ c. c.fn.guard ≡ none) s.unmanaged
      → All (λ c. (c.type ≢ blocking) × IsGuarded c) s.managed
      → length s.managed < 2 ^ 32
      → let r = emit h self args s w in
        (r.1 ≡ returned (record s { managed = keep_if (λ c. h.alive w c.context) s.managed }))
        × (q.pending r.0 k ≡ q.pending w k ++ posts (h.alive w) (h.event_loop w) args k s.managed)
        × (q.log r.0
            ≡ q.log w
              ++ (map (λ c. c.fn.slot args) s.unmanaged
                  ++ calls (h.alive w) (h.event_loop w) args s.managed))
  unfolding emit
  emit_delivers s w k plain guarded small =
      let (e, first) = emit_unmanaged-Grew s.unmanaged w k plain in
      let (end, rest) =
        emit_managed-Walked (h.alive w) (h.event_loop w) k s.managed 0 _ first.0 first.1 guarded
          (omega arith) in
      let grown = Grew-trans h q k w _ _ [] _ _ _ first rest in
      rw (e, emit)
        (rw (end, after_walk)
          (
            ap returned (
                rw zero-add (remove_expired-living h self args (h.alive w) s _ (rest.0 ∙ first.0))),
            grown.2,
            grown.3,
          ))
