-- ===== src/Signal/Connections.antt =====
-- What `Connect`, `Disconnect` and `ConnectionValid` (ks/KsSignal.hpp) do to the connections and the
-- ids of a signal.
use ks_core.Base.{ℕ, ◌+◌, ◌%◌, ◌≤◌, ◌<◌, ◌≡◌, true, false, arith, inl, inr, ◌≢◌}
use ks_core.Ids.{id_mod}
use ks_core.Signal.{Signal, Connected, ConnectCall, connect, disconnect, connection_valid}
use ks_core.Signal.Occurrences.{
  occurrences, connection_valid_lem, occurrences-disconnect, Undone-managed, Undone-unmanaged,
  Appended, connect-Appended, occurrences-connect,
}

module _ {A B : Type 0} where
  -- The ids of a signal's connections are different, not 0, and below the counter.
  pub record HasUniqueIds (counter : ℕ) (s : Signal A B) : Type 0 where
    pub unique : (j : ℕ) → occurrences j s ≤ 1
    pub below : (j : ℕ) → counter ≤ j → occurrences j s ≡ 0
    pub nonzero : occurrences 0 s ≡ 0

  -- The counter also serves other signals: it may run ahead.
  pub HasUniqueIds-mono :
      {counter later : ℕ} {s : Signal A B}
      → counter ≤ later
      → HasUniqueIds counter s
      → HasUniqueIds later s
  HasUniqueIds-mono h v = record {
    unique = v.unique;
    below = λ j k. v.below j (omega arith);
    nonzero = v.nonzero;
  }

  -- `Disconnect` keeps the ids unique.
  pub disconnect-HasUniqueIds :
      (cid counter : ℕ) (s : Signal A B)
      → HasUniqueIds counter s
      → HasUniqueIds counter (disconnect cid s).0
  disconnect-HasUniqueIds cid counter s v = record {
    unique = λ j. omega (arith, occurrences-disconnect cid j s, v.unique j);
    below = λ j k. omega (arith, occurrences-disconnect cid j s, v.below j k);
    nonzero = omega (arith, occurrences-disconnect cid 0 s, v.nonzero);
  }

  -- Where the ids are unique: `Disconnect` says whether the connection was there, after it the
  -- connection is not valid any more, so that a second call fails, and no other is affected.
  pub disconnect_exact :
      (cid counter : ℕ) (s : Signal A B)
      → HasUniqueIds counter s
      → ((disconnect cid s).1 ≡ connection_valid cid s)
        × (connection_valid cid (disconnect cid s).0 ≡ false)
        × ((disconnect cid (disconnect cid s).0).1 ≡ false)
        × ((j : ℕ) → cid ≢ j → connection_valid j (disconnect cid s).0 ≡ connection_valid j s)
  disconnect_exact cid counter s v = (
    ground (arith, occurrences-disconnect cid cid s, connection_valid_lem cid s),
    ground (
      arith,
      occurrences-disconnect cid cid s,
      connection_valid_lem cid (disconnect cid s).0,
      v.unique cid,
    ),
    ground (
      arith,
      occurrences-disconnect cid cid s,
      occurrences-disconnect cid cid (disconnect cid s).0,
      v.unique cid,
    ),
    λ j h. ground (
      arith,
      occurrences-disconnect cid j s,
      connection_valid_lem j s,
      connection_valid_lem j (disconnect cid s).0,
    ),
  )

module _ {A B T : Type 0} where
  pub connect-counter :
      (call : ConnectCall A B T) (counter : ℕ) (s : Signal A B)
      → (connect call counter s).counter ≡ (counter + 1) % id_mod
  unfolding Appended
  connect-counter call counter s = (connect-Appended call counter s).1

  -- All overloads of `Connect` keep the ids unique, until the 64-bit counter would wrap.
  pub connect-HasUniqueIds :
      (call : ConnectCall A B T) (counter : ℕ) (s : Signal A B)
      → 0 < counter
      → counter + 1 < id_mod
      → HasUniqueIds counter s
      → HasUniqueIds (connect call counter s).counter (connect call counter s).signal
  connect-HasUniqueIds call counter s pos room v = record {
    unique = λ j. ground (arith, occurrences-connect call counter j s, v.unique j, v.below j);
    below = λ j k.
        ground
          (arith, occurrences-connect call counter j s, connect-counter call counter s, v.below j);
    nonzero = ground (arith, occurrences-connect call counter 0 s, v.nonzero);
  }

  -- `Disconnect` with the id that `Connect` returned gives the signal back as it was.
  pub disconnect-connect :
      (call : ConnectCall A B T) (counter : ℕ) (s : Signal A B)
      → HasUniqueIds counter s
      → let r = connect call counter s in
        (disconnect r.id r.signal ≡ (s, true)) × (connection_valid r.id r.signal ≡ true)
  unfolding Appended
  disconnect-connect call counter s v =
      go (connect call counter s) (connect-Appended call counter s) (v.below counter (omega arith))
    where
      go :
          (r : Connected A B)
          → Appended counter s r
          → occurrences counter s ≡ 0
          → (disconnect r.id r.signal ≡ (s, true)) × (connection_valid r.id r.signal ≡ true)
      go r (e, _, inl (c, h, q)) z = rw (q, e, ← h) (Undone-managed s c (rw h z))
      go r (e, _, inr (c, h, q)) z = rw (q, e, ← h) (Undone-unmanaged s c (rw h z))
