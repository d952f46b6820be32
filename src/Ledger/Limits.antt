-- ===== src/Ledger/Limits.antt =====
-- `verify` of backend/app/services/ledger.py on ledgers that were changed behind its back.
use shtapm.Base.{ℕ, ◌≡◌, ◌≢◌, refl, sym, ap, none, List, [], ◌∷◌, ◌++◌, arith, ◌⊎◌, inl, inr}
use shtapm.Ledger.Digits.{Bytes, str}
use shtapm.Ledger.Chain.{
  Timestamp, utc, LedgerBlock, Services, valid_result, broken, genesis_prev_hash, hash_payload,
  preimage, hash_block, verify_from, Bytes-discrete,
}
use shtapm.Ledger.Tamper.{Collision}

module _ {P : Type 0} (v : Services P) where
  verify_edited :
      (good : List (LedgerBlock P)) (prev : Bytes) (b : LedgerBlock P) (rest : List (LedgerBlock P))
      (p : P)
      → hash_payload v p ≢ hash_payload v b.payload
      → verify_from v prev (good ++ b ∷ rest) ≡ valid_result v
      → verify_from v prev (good ++ record b { payload = p } ∷ rest) ≡ broken v b
  unfolding verify_from
  verify_edited [] prev b rest p n e = ground arith
  verify_edited (g ∷ good) prev b rest p n e =
      ground (arith, verify_edited good g.this_hash b rest p n)

  -- An edited payload is found, and the edited block named: if `verify` accepts a ledger, then with
  -- another payload of another JSON text in any one block it answers that the chain is broken at
  -- that block, or else the two texts have the same SHA-256.
  pub edited_payload_found :
      (good rest : List (LedgerBlock P)) (b : LedgerBlock P) (p : P)
      → v.canonical_json p ≢ v.canonical_json b.payload
      → verify_from v genesis_prev_hash (good ++ b ∷ rest) ≡ valid_result v
      → (verify_from v genesis_prev_hash (good ++ record b { payload = p } ∷ rest) ≡ broken v b)
        ⊎ Collision v
  unfolding hash_payload
  edited_payload_found good rest b p n e =
      elim (Bytes-discrete (v.sha256 (v.canonical_json p))
        (v.sha256 (v.canonical_json b.payload))) [
          | yes same ↦ inr (v.canonical_json p, v.canonical_json b.payload, n, same)
          | no differ ↦ inl (verify_edited good genesis_prev_hash b rest p differ e)
        ]

  -- Other event types on the same blocks.
  pub relabel : (LedgerBlock P → Bytes) → List (LedgerBlock P) → List (LedgerBlock P)
  relabel f [] = []
  relabel f (b ∷ bs) = record b { event_type = f b } ∷ relabel f bs

  -- The event types are not part of the chain: whatever they are replaced by, in whichever
  -- blocks, `verify` gives the answer that it gave before.
  pub relabel_unnoticed :
      (f : LedgerBlock P → Bytes) (prev : Bytes) (bs : List (LedgerBlock P))
      → verify_from v prev (relabel f bs) ≡ verify_from v prev bs
  unfolding verify_from relabel
  relabel_unnoticed f prev [] = refl
  relabel_unnoticed f prev (b ∷ bs) = rw (relabel_unnoticed f b.this_hash bs)

  -- Blocks removed from the end are not missed: each beginning of an accepted ledger is accepted.
  pub truncation_unnoticed :
      (bs : List (LedgerBlock P)) (prev : Bytes) (cut : List (LedgerBlock P))
      → verify_from v prev (bs ++ cut) ≡ valid_result v
      → verify_from v prev bs ≡ valid_result v
  unfolding verify_from
  truncation_unnoticed [] prev cut e = refl
  truncation_unnoticed (b ∷ bs) prev cut e = ground (arith, truncation_unnoticed bs b.this_hash cut)

  -- A database that keeps no offsets, as SQLite: the wall clock stays.
  pub without_offsets : List (LedgerBlock P) → List (LedgerBlock P)
  without_offsets [] = []
  without_offsets (b ∷ bs) =
      record b { ts = record { wall = b.ts.wall; offset = none } } ∷ without_offsets bs

  abbrev pub IsUtc : Timestamp → Type 0
  IsUtc ts = utc ts ≡ ts.wall

  abbrev pub AllUtc : List (LedgerBlock P) → Type 0
  AllUtc [] = Unit
  AllUtc (b ∷ bs) = IsUtc b.ts × AllUtc bs

  hash_wall :
      (i : ℕ) (ts : Timestamp) (payload_hash prev_hash : Bytes)
      → IsUtc ts
      → hash_block v i (record { wall = ts.wall; offset = none }) payload_hash prev_hash
        ≡ hash_block v i ts payload_hash prev_hash
  unfolding hash_block preimage
  hash_wall i ts payload_hash prev_hash h =
      ap (λ t. v.sha256 ((str i ++ v.isoformat t) ++ (payload_hash ++ prev_hash))) (sym h)

  -- Losing the offsets of UTC times in the database changes no answer of `verify`.
  pub verify-without_offsets :
      (bs : List (LedgerBlock P)) (prev : Bytes)
      → AllUtc bs
      → verify_from v prev (without_offsets bs) ≡ verify_from v prev bs
  unfolding verify_from without_offsets
  verify-without_offsets [] prev h = refl
  verify-without_offsets (b ∷ bs) prev h =
      rw (verify-without_offsets bs b.this_hash h.1)
        (rw (hash_wall b.block_index b.ts b.payload_hash b.prev_hash h.0))
