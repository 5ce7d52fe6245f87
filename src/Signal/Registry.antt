-- ===== src/Signal/Registry.antt =====
-- What a signal promises about its connections (ks/KsSignal.hpp), whatever the vectors are in which
-- it keeps them: a bag of ids, and the next id.
mod Bags
use mathlib.Core.Quot
use ks_core.Base.{
  ℕ, ◌+◌, ◌-◌, ◌%◌, ◌^◌, ◌≡◌, refl, sym, ap, ◌∙◌, Bool, ltb, List, [], ◌∷◌, ◌++◌, map, length,
  arith, if◌then◌else◌, ◌==◌, count_key, count_key-append, length-append, length-map,
}
use ks_core.Ids.{id_mod}
use ks_core.Signal.{
  Signal, ConnectCall, connect, disconnect, connection_valid, get_connection_count,
}
use ks_core.Signal.Occurrences.{
  occurrences, connection_valid_lem, occurrences-connect, occurrences-disconnect,
}
use ks_core.Signal.Connections.{connect-counter}
use ks_core.Signal.Registry.Bags.{count, count-erase_first, Bag, put, remove, has, size}

-- The ids of a signal's connections.
abbrev pub ids : {A B : Type 0} → Signal A B → List ℕ
ids s = map (λ c. c.id) s.managed ++ map (λ c. c.id) s.unmanaged

count-map :
    {C : Type 0} (key : C → ℕ) (j : ℕ) (xs : List C) → count j (map key xs) ≡ count_key key j xs
count-map key j [] = refl
count-map key j (x ∷ xs) = ap (λ n. (if key x == j then 1 else 0) + n) (count-map key j xs)

-- The calls of a signal, and what they answer.
pub data Call (A B T : Type 0) : Type 0 where
  connects : ConnectCall A B T → Call A B T
  disconnects asks_valid : ℕ → Call A B T
  asks_count : Call A B T

pub data Reply : Type 0 where
  new_id : ℕ → Reply
  answer : Bool → Reply
  number : ℕ → Reply

module _ {A B T : Type 0} where
  -- The code, with the counter of ids.
  abbrev pub perform : Call A B T → ℕ → Signal A B → ℕ × Signal A B × Reply
  perform (connects call) counter s =
      let r = connect call counter s in (r.counter, r.signal, new_id r.id)
  perform (disconnects cid) counter s =
      let (s', found) = disconnect cid s in (counter, s', answer found)
  perform (asks_valid cid) counter s = (counter, s, answer (connection_valid cid s))
  perform asks_count counter s = (counter, s, number (get_connection_count s))

  abbrev pub performs : List (Call A B T) → ℕ → Signal A B → ℕ × Signal A B × List Reply
  performs [] counter s = (counter, s, [])
  performs (c ∷ cs) counter s =
      let (counter', s', reply) = perform c counter s in
      let (counter'', s'', replies) = performs cs counter' s' in (counter'', s'', reply ∷ replies)

  -- The promise.
  abbrev pub promise : Call A B T → ℕ → Bag → ℕ × Bag × Reply
  promise (connects call) next bag = ((next + 1) % id_mod, put next bag, new_id next)
  promise (disconnects cid) next bag = (next, remove cid bag, answer (has cid bag))
  promise (asks_valid cid) next bag = (next, bag, answer (has cid bag))
  promise asks_count next bag = (next, bag, number (size bag % 2 ^ 32))

  abbrev pub promises : List (Call A B T) → ℕ → Bag → ℕ × Bag × List Reply
  promises [] next bag = (next, bag, [])
  promises (c ∷ cs) next bag =
      let (next', bag', reply) = promise c next bag in
      let (next'', bag'', replies) = promises cs next' bag' in (next'', bag'', reply ∷ replies)

abbrev pub abstraction : {A B R : Type 0} → ℕ × Signal A B × R → ℕ × Bag × R
abstraction (counter, s, r) = (counter, Quot.mk (ids s), r)

module _ {A B : Type 0} where
  count-ids : (j : ℕ) (s : Signal A B) → count j (ids s) ≡ occurrences j s
  count-ids j s =
      rw
        (
          count_key-append (λ x. x) j (map (λ c. c.id) s.managed) (map (λ c. c.id) s.unmanaged),
          count-map (λ c. c.id) j s.managed,
          count-map (λ c. c.id) j s.unmanaged,
        )
        refl

  length-ids : (s : Signal A B) → length (ids s) ≡ length s.managed + length s.unmanaged
  length-ids s =
      rw
        (
          length-append (map (λ c. c.id) s.managed) (map (λ c. c.id) s.unmanaged),
          length-map (λ c. c.id) s.managed,
          length-map (λ c. c.id) s.unmanaged,
        )
        refl

triple :
    {A B C : Type 0} {a a' : A} {b b' : B} {c c' : C}
    → a ≡ a'
    → b ≡ b'
    → c ≡ c'
    → ◌≡◌ {A = A × B × C} (a, b, c) (a', b', c')
triple p q r i = (p i, q i, r i)

module _ {A B T : Type 0} where
  perform-promise :
      (c : Call A B T) (counter : ℕ) (s : Signal A B)
      → abstraction (perform c counter s) ≡ promise c counter (Quot.mk (ids s))
  unfolding put remove has size get_connection_count
  perform-promise (connects call) counter s =
      let r = connect call counter s in
      triple (connect-counter call counter s)
        (Quot.sound (λ j.
          grind (arith, count-ids j r.signal, count-ids j s, occurrences-connect call counter j s)))
        (ap new_id (occurrences-connect call counter 0 s).1)
  perform-promise (disconnects cid) counter s =
      let r = disconnect cid s in
      triple refl
        (Quot.sound (λ j. ground (
          arith,
          count-ids j r.0,
          count-ids j s,
          count-erase_first cid j (ids s),
          occurrences-disconnect cid j s,
        )))
        (ap answer ((occurrences-disconnect cid 0 s).1 ∙ ap (ltb 0) (sym (count-ids cid s))))
  perform-promise (asks_valid cid) counter s =
      triple refl refl (ap answer (connection_valid_lem cid s ∙ ap (ltb 0) (sym (count-ids cid s))))
  perform-promise asks_count counter s =
      triple refl refl (ap (λ n. number (n % 2 ^ 32)) (sym (length-ids s)))

  -- Any calls of a signal's Connect, Disconnect, ConnectionValid and GetConnectionCount answer what
  -- a bag of ids answers, whose order no answer depends on: Connect gives the next id, which goes
  -- into the bag; Disconnect takes one such id out, if there is one, and says whether; the count is
  -- the bag's size, modulo 2 ^ 32. Then the signal's ids and the next id are those of the bag.
  pub performs-promises :
      (cs : List (Call A B T)) (counter : ℕ) (s : Signal A B)
      → abstraction (performs cs counter s) ≡ promises cs counter (Quot.mk (ids s))
  performs-promises [] counter s = refl
  performs-promises (c ∷ cs) counter s =
      let r = perform c counter s in
      let first = perform-promise c counter s in
      let others =
        performs-promises cs r.0 r.1
        ∙ ap (λ (p : ℕ × Bag × Reply). promises {A = A} {B = B} {T = T} cs p.0 p.1) first in
      triple (ap (λ x. x.0) others) (ap (λ x. x.1) others) (λ i. (first i).2 ∷ (others i).2)
