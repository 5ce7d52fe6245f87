-- ===== src/Ids/Tests.antt =====
-- Two threads in `genId`: the second takes the mutex when the first has released it.
use ks_core.Base.{◌≡◌, refl, [], ◌∷◌, arith, some, update}
use ks_core.Ids.Sequence.{AreFresh, gen_ids}
use ks_core.Ids.Threads.{
  idle, locked, loaded, bumped, lock, load, bump, unlock, Reach, here, next, interleavings-gen_ids,
  issued-AreFresh,
}

after_one : Reach (record {
  counter = 2;
  owner = some 8;
  pc =
      update
        (update (update (update (update (λ _. idle) 7 locked) 7 (loaded 1)) 7 (bumped 1)) 7 idle)
        8
        locked;
  issued = 1 ∷ [];
})
after_one =
    next
      (next
        (next (next (next here (lock 7 refl refl refl)) (load 7 refl refl)) (bump 7 1 refl refl))
        (unlock 7 1 refl refl))
      (lock 8 refl refl refl)

interleavings-gen_ids_example : 1 ∷ [] ≡ (gen_ids 1).0
interleavings-gen_ids_example = (interleavings-gen_ids after_one).0

issued-AreFresh_example : AreFresh (1 ∷ [])
issued-AreFresh_example = issued-AreFresh after_one (omega arith)
