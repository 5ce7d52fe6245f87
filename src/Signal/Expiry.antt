-- ===== src/Signal/Expiry.antt =====
-- The end of Signal::Emit (ks/KsSignal.hpp), where connections with dead contexts are erased.
use ks_core.Base.{
  ℕ, ◌+◌, ◌≡◌, refl, Bool, ltb, List, [], ◌∷◌, arith, keep_if, if◌then◌else◌, Bool-cases, inl, inr,
}
use ks_core.Host.{Host}
use ks_core.Signal.{ManagedConnection, Signal}
use ks_core.Signal.Emit.{remove_expired}

module _ {A B : Type 0} (alive : ℕ → Bool) where
  -- The number of connections with dead contexts.
  abbrev pub dead : List (ManagedConnection A B) → ℕ
  dead [] = 0
  dead (c ∷ cs) = (if alive c.context then 0 else 1) + dead cs

  keep_if_living :
      (cs : List (ManagedConnection A B)) → dead cs ≡ 0 → keep_if (λ c. alive c.context) cs ≡ cs
  keep_if_living [] e = refl
  keep_if_living (c ∷ cs) e = ground (arith, keep_if_living cs)

-- The test of the count spares the removal only where it would remove nothing.
pub remove_expired-living :
    {A B W : Type 0} (h : Host B W) (self : ℕ) (args : A) (alive : ℕ → Bool) (s : Signal A B)
    (w : W)
    → h.alive w ≡ alive
    → remove_expired h self args s (dead alive s.managed) w
      ≡ record s { managed = keep_if (λ c. alive c.context) s.managed }
unfolding remove_expired
remove_expired-living h self args alive s w a = elim (Bool-cases (ltb 0 (dead alive s.managed))) [
  | inl e ↦ rw (e, a)
  | inr e ↦ rw (e, keep_if_living alive s.managed (ground arith))
]
