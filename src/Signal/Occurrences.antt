-- ===== src/Signal/Occurrences.antt =====
-- How often an id occurs among a signal's connections (ks/KsSignal.hpp), before and after `Connect`
-- and `Disconnect`.
use ks_core.Base.{
  ℕ, ◌+◌, ◌-◌, ◌%◌, ◌≤◌, ◌≡◌, refl, true, none, some, [], ◌∷◌, ◌++◌, arith, length, ltb, ◌==◌,
  if◌then◌else◌, count_key, count_key-append, count_key-find_none, count_key-find_some,
  count_key-erase, find_index-append, find_index_absent, erase_index_last, Option-cases, inl, inr,
  ◌⊎◌,
}
use ks_core.Ids.{id_mod}
use ks_core.Signal.{
  ManagedConnection, UnmanagedConnection, Signal, Connected, ConnectCall, function, member,
  receiver, connect, connect_function, connect_member, connect_receiver, find_managed_connection,
  find_unmanaged_connection, disconnect, connection_valid,
}

module _ {A B : Type 0} where
  abbrev managed_id : ManagedConnection A B → ℕ
  managed_id c = c.id

  abbrev unmanaged_id : UnmanagedConnection A B → ℕ
  unmanaged_id c = c.id

  -- How many connections of the signal have the id.
  abbrev pub occurrences : ℕ → Signal A B → ℕ
  occurrences j s = count_key managed_id j s.managed + count_key unmanaged_id j s.unmanaged

  -- What the two searches of `Disconnect` and `ConnectionValid` come to, in their order.
  abbrev Searched : ℕ → Signal A B → Type 0
  Searched cid s =
      ((i : ℕ) × (find_managed_connection cid s ≡ some i)
        × (1 ≤ count_key managed_id cid s.managed))
      ⊎ ((find_managed_connection cid s ≡ none)
          × (count_key managed_id cid s.managed ≡ 0)
          × (((i : ℕ) × (find_unmanaged_connection cid s ≡ some i)
                × (1 ≤ count_key unmanaged_id cid s.unmanaged))
              ⊎ ((find_unmanaged_connection cid s ≡ none)
                  × (count_key unmanaged_id cid s.unmanaged ≡ 0))))

  searched : (cid : ℕ) (s : Signal A B) → Searched cid s
  unfolding find_managed_connection find_unmanaged_connection
  searched cid s = elim (Option-cases (find_managed_connection cid s)) [
    | inr (i, e) ↦ inl (i, e, (count_key-find_some managed_id cid s.managed i e).0)
    | inl e ↦ inr (
      e,
      count_key-find_none managed_id cid s.managed e,
      elim (Option-cases (find_unmanaged_connection cid s)) [
        | inr (i, f) ↦ inl (i, f, (count_key-find_some unmanaged_id cid s.unmanaged i f).0)
        | inl f ↦ inr (f, count_key-find_none unmanaged_id cid s.unmanaged f)
      ],
    )
  ]

  -- `connection_valid` is whether some connection has the id.
  pub connection_valid_lem :
      (j : ℕ) (s : Signal A B) → connection_valid j s ≡ ltb 0 (occurrences j s)
  unfolding connection_valid
  connection_valid_lem j s = ground (arith, searched j s)

  -- Exactly one occurrence of the id goes, if there is one, and the result says whether.
  pub occurrences-disconnect :
      (cid j : ℕ) (s : Signal A B)
      → (occurrences j (disconnect cid s).0 ≡ occurrences j s - (if cid == j then 1 else 0))
        × ((disconnect cid s).1 ≡ ltb 0 (occurrences cid s))
  unfolding disconnect find_managed_connection find_unmanaged_connection
  occurrences-disconnect cid j s = elim (searched cid s) [
    | inl (i, e, h) ↦
        rw (e, disconnect) (ground (arith, count_key-erase managed_id cid j s.managed i e))
    | inr (e, h, inl (i, f, k)) ↦
        rw (e, disconnect)
          (rw f (ground (arith, count_key-erase unmanaged_id cid j s.unmanaged i f)))
    | inr (e, h, inr (f, k)) ↦ rw (e, disconnect) (rw f (ground arith))
  ]

  -- The connection that was appended last is the one that its id finds, and it is erased again.
  abbrev pub Undone : ℕ → Signal A B → Signal A B → Type 0
  Undone cid r s = (disconnect cid r ≡ (s, true)) × (connection_valid cid r ≡ true)

  pub Undone-managed :
      (s : Signal A B) (c : ManagedConnection A B)
      → occurrences c.id s ≡ 0
      → Undone c.id (record s { managed = s.managed ++ c ∷ [] }) s
  unfolding disconnect connection_valid
  Undone-managed s c z =
      rw (found, disconnect, connection_valid) (rw (erase_index_last s.managed c) (refl, refl))
    where
      found :
          find_managed_connection c.id (record s { managed = s.managed ++ c ∷ [] })
          ≡ some (length s.managed)
      found =
          unfold find_managed_connection in (find_index-append managed_id s.managed c (omega arith))

  pub Undone-unmanaged :
      (s : Signal A B) (c : UnmanagedConnection A B)
      → occurrences c.id s ≡ 0
      → Undone c.id (record s { unmanaged = s.unmanaged ++ c ∷ [] }) s
  unfolding disconnect connection_valid
  Undone-unmanaged s c z =
      rw (missing, disconnect, connection_valid)
        (rw found (rw (erase_index_last s.unmanaged c) (refl, refl)))
    where
      r : Signal A B
      r = record s { unmanaged = s.unmanaged ++ c ∷ [] }

      missing : find_managed_connection c.id r ≡ none
      missing =
          unfold find_managed_connection in
          (find_index_absent managed_id c.id s.managed (omega arith))

      found : find_unmanaged_connection c.id r ≡ some (length s.unmanaged)
      found =
          unfold find_unmanaged_connection in
          (find_index-append unmanaged_id s.unmanaged c (omega arith))

  -- What all overloads share: a new last entry in one of the vectors, with the counter's id.
  unfoldable pub Appended : ℕ → Signal A B → Connected A B → Type 0
  Appended counter s r =
      (r.id ≡ counter)
      × (r.counter ≡ (counter + 1) % id_mod)
      × (((c : ManagedConnection A B) × (c.id ≡ counter)
            × (r.signal ≡ record s { managed = s.managed ++ c ∷ [] }))
          ⊎ ((c : UnmanagedConnection A B) × (c.id ≡ counter)
              × (r.signal ≡ record s { unmanaged = s.unmanaged ++ c ∷ [] })))

module _ {A B T : Type 0} where
  pub connect-Appended :
      (call : ConnectCall A B T) (counter : ℕ) (s : Signal A B)
      → Appended counter s (connect call counter s)
  unfolding Appended connect_function connect_member connect_receiver
  connect-Appended (function fn none type) counter s = (refl, refl, inr (_, refl, refl))
  connect-Appended (function fn (some ctx) type) counter s = (refl, refl, inl (_, refl, refl))
  connect-Appended (member object memfn none type) counter s = (refl, refl, inr (_, refl, refl))
  connect-Appended (member object memfn (some ctx) type) counter s =
      (refl, refl, inl (_, refl, refl))
  connect-Appended (receiver r slot type) counter s = (refl, refl, inl (_, refl, refl))

  -- A new connection adds one occurrence of the id that it returns, and no other.
  pub occurrences-connect :
      (call : ConnectCall A B T) (counter j : ℕ) (s : Signal A B)
      → let r = connect call counter s in
        (occurrences j r.signal ≡ occurrences j s + (if r.id == j then 1 else 0)) × (r.id ≡ counter)
  unfolding Appended
  occurrences-connect call counter j s =
      go (connect call counter s) (connect-Appended call counter s)
    where
      go :
          (r : Connected A B)
          → Appended counter s r
          → (occurrences j r.signal ≡ occurrences j s + (if r.id == j then 1 else 0))
            × (r.id ≡ counter)
      go r (e, _, inl (c, h, q)) =
          rw (q, e) (ground (arith, count_key-append managed_id j s.managed (c ∷ [])))
      go r (e, _, inr (c, h, q)) =
          rw (q, e) (ground (arith, count_key-append unmanaged_id j s.unmanaged (c ∷ [])))
