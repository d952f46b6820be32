-- ===== src/Ledger/Table.antt =====
-- Every ledger that `append` of backend/app/services/ledger.py writes is accepted by `verify`.
use mathlib.Core.Logic.{if_pos}
use shtapm.Base.{
  ℕ, suc, ◌+◌, ◌≡◌, refl, sym, subst, ◌==◌, Option, none, some, List, [], ◌∷◌, ◌++◌, arith, inl,
  inr, Bool-cases, append-nil,
}
use shtapm.Ledger.Digits.{Bytes}
use shtapm.Ledger.Chain.{
  Timestamp, LedgerBlock, Services, valid_result, genesis_prev_hash, hash_payload, hash_block,
  of_device, blocks_of, next_block, append, verify_from, verify, last_after, next_index, last_hash,
}

module _ {P : Type 0} (v : Services P) where
  -- Hash-chained blocks, numbered from `i`, behind a block with hash `prev`.
  abbrev pub IsChain : Bytes → ℕ → List (LedgerBlock P) → Type 0
  IsChain prev i [] = Unit
  IsChain prev i (b ∷ bs) =
      (b.block_index ≡ i)
      × (b.payload_hash ≡ hash_payload v b.payload)
      × (b.prev_hash ≡ prev)
      × (b.this_hash ≡ hash_block v b.block_index b.ts b.payload_hash b.prev_hash)
      × IsChain b.this_hash (suc i) bs

  -- ORDER BY leaves rows alone that ascend already.
  abbrev pub Ascends : ℕ → List (LedgerBlock P) → Type 0
  Ascends i [] = Unit
  Ascends i (b ∷ bs) = (b.block_index ≡ i) × Ascends (suc i) bs

  pub record Sorts : Type 0 where
    pub keeps : (bs : List (LedgerBlock P)) → Ascends 0 bs → v.order_by_index bs ≡ bs

  pub verify_chain :
      (prev : Bytes) (i : ℕ) (bs : List (LedgerBlock P))
      → IsChain prev i bs
      → verify_from v prev bs ≡ valid_result v
  unfolding verify_from
  verify_chain prev i [] h = refl
  verify_chain prev i (b ∷ bs) h =
      rw (if_pos _ h.1)
        (rw (if_pos _ h.2) (rw (if_pos _ h.3) (verify_chain b.this_hash (suc i) bs h.4)))

  IsChain-Ascends :
      (prev : Bytes) (i : ℕ) (bs : List (LedgerBlock P)) → IsChain prev i bs → Ascends i bs
  IsChain-Ascends prev i [] h = tt
  IsChain-Ascends prev i (b ∷ bs) h = (h.0, IsChain-Ascends b.this_hash (suc i) bs h.4)

  of_device-append :
      (device : ℕ) (xs ys : List (LedgerBlock P))
      → of_device v device (xs ++ ys) ≡ of_device v device xs ++ of_device v device ys
  of_device-append device [] ys = refl
  of_device-append device (x ∷ xs) ys = ground (arith, of_device-append device xs ys)

  IsChain-append :
      (last : Option (LedgerBlock P)) (device : ℕ) (event : Bytes) (payload : P) (ts : Timestamp)
      (bs : List (LedgerBlock P))
      → IsChain (last_hash v last) (next_index v last) bs
      → IsChain
          (last_hash v last)
          (next_index v last)
          (bs ++ next_block v (last_after last bs) device event payload ts ∷ [])
  unfolding next_block
  IsChain-append last device event payload ts [] h = (refl, refl, refl, refl, tt)
  IsChain-append last device event payload ts (b ∷ bs) h =
      let index : b.block_index + 1 ≡ suc (next_index v last) = omega (arith, h.0) in
      (
        h.0,
        h.1,
        h.2,
        h.3,
        subst
            (λ i.
              IsChain b.this_hash i
                (bs ++ next_block v (last_after (some b) bs) device event payload ts ∷ []))
            index
            (IsChain-append (some b) device event payload ts bs
              (subst (λ i. IsChain b.this_hash i bs) (sym index) h.4)),
      )

  -- What one call of `append` is given.
  pub record Entry : Type 0 where
    pub device : ℕ
    pub event : Bytes
    pub payload : P
    pub ts : Timestamp

  pub append_all : List (LedgerBlock P) → List Entry → List (LedgerBlock P)
  append_all rows [] = rows
  append_all rows (e ∷ es) = append_all (append v rows e.device e.event e.payload e.ts) es

  -- Every device's rows are a chain.
  abbrev IsSound : List (LedgerBlock P) → Type 0
  IsSound rows = (device : ℕ) → IsChain genesis_prev_hash 0 (of_device v device rows)

  own-IsChain :
      Sorts
      → (rows : List (LedgerBlock P)) (e : Entry) → IsSound rows
      → IsChain genesis_prev_hash 0 (
          of_device v e.device rows
          ++ next_block v
              (last_after none (blocks_of v e.device rows))
              e.device
              e.event
              e.payload
              e.ts
            ∷ [])
  unfolding blocks_of
  own-IsChain sorts rows e h =
      rw
        (sorts.keeps (of_device v e.device rows)
          (IsChain-Ascends genesis_prev_hash 0 _ (h e.device)))
        (IsChain-append none e.device e.event e.payload e.ts (of_device v e.device rows)
          (h e.device))

  append-IsSound :
      Sorts
      → (rows : List (LedgerBlock P)) (e : Entry) → IsSound rows
      → IsSound (append v rows e.device e.event e.payload e.ts)
  unfolding append
  append-IsSound sorts rows e h device =
      rw (of_device-append device rows _) (elim (Bool-cases (e.device == device)) [
        | inl same ↦ rw same (
            subst
              (λ d. IsChain genesis_prev_hash 0 (
                of_device v d rows
                ++ next_block v (last_after none (blocks_of v e.device rows)) e.device e.event
                    e.payload e.ts
                  ∷ []))
              (ground arith) (own-IsChain sorts rows e h))
        | inr other ↦ rw (other, append-nil) (h device)
      ])

  append_all-IsSound :
      (es : List Entry) (rows : List (LedgerBlock P))
      → Sorts
      → IsSound rows
      → IsSound (append_all rows es)
  unfolding append_all
  append_all-IsSound [] rows sorts h = h
  append_all-IsSound (e ∷ es) rows sorts h =
      append_all-IsSound es (append v rows e.device e.event e.payload e.ts) sorts
        (append-IsSound sorts rows e h)

  -- Whatever was appended for whichever devices, in whatever order: starting from an empty table,
  -- the blocks of each device are numbered from 0 and `verify` accepts them, if ORDER BY leaves
  -- rows that ascend already as they are.
  pub verify-append_all :
      Sorts
      → (es : List Entry) (device : ℕ)
      → Ascends 0 (blocks_of v device (append_all [] es))
        × (verify v (append_all [] es) device ≡ valid_result v)
  unfolding verify blocks_of
  verify-append_all sorts es device =
      let chain = append_all-IsSound es [] sorts (λ d. tt) device in
      let ascends =
        IsChain-Ascends genesis_prev_hash 0 (of_device v device (append_all [] es)) chain in
      rw (sorts.keeps (of_device v device (append_all [] es)) ascends)
        (ascends, verify_chain genesis_prev_hash 0 _ chain)
