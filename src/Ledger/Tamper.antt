-- ===== src/Ledger/Tamper.antt =====
-- What `verify` of backend/app/services/ledger.py detects, and what it does not.
use shtapm.Base.{
  ℕ, ◌≡◌, ◌≢◌, ◌∙◌, refl, sym, ap, List, [], ◌∷◌, ◌++◌, arith, ◌⊎◌, inl, inr, length, length-append,
}
use shtapm.Ledger.Digits.{Bytes, str, IsStamp, str-stamp_injective, split_at_length}
use shtapm.Ledger.Chain.{
  utc, LedgerBlock, Services, valid_result, genesis_prev_hash, hash_payload, preimage, hash_block,
  verify_from, Bytes-discrete,
}

module _ {P : Type 0} (v : Services P) where
  -- Two different texts with one hash.
  abbrev pub Collision : Type 0
  Collision = (x : Bytes) × (y : Bytes) × (x ≢ y) × (v.sha256 x ≡ v.sha256 y)

  same_input : (x y : Bytes) → v.sha256 x ≡ v.sha256 y → (x ≡ y) ⊎ Collision
  same_input x y e = elim (Bytes-discrete x y) [ yes p ↦ inl p | no n ↦ inr (x, y, n, e) ]

  verify_inv :
      (prev : Bytes) (b : LedgerBlock P) (bs : List (LedgerBlock P))
      → verify_from v prev (b ∷ bs) ≡ valid_result v
      → (b.payload_hash ≡ hash_payload v b.payload)
        × (b.prev_hash ≡ prev)
        × (b.this_hash ≡ hash_block v b.block_index b.ts b.payload_hash b.prev_hash)
        × (verify_from v b.this_hash bs ≡ valid_result v)
  unfolding verify_from
  verify_inv prev b bs e = ground arith

  -- The hash of the last block, or what the first one follows.
  pub end_hash : Bytes → List (LedgerBlock P) → Bytes
  end_hash prev [] = prev
  end_hash prev (b ∷ bs) = end_hash b.this_hash bs

  -- All that is hashed of two blocks agrees: number, UTC time, payload text and link.
  pub record SameBlock (b c : LedgerBlock P) : Type 0 where
    pub index : b.block_index ≡ c.block_index
    pub time : v.isoformat (utc b.ts) ≡ v.isoformat (utc c.ts)
    pub payload : v.canonical_json b.payload ≡ v.canonical_json c.payload
    pub link : b.prev_hash ≡ c.prev_hash

  abbrev pub SameBlocks : List (LedgerBlock P) → List (LedgerBlock P) → Type 0
  SameBlocks [] [] = Unit
  SameBlocks (b ∷ bs) (c ∷ cs) = SameBlock b c × SameBlocks bs cs
  SameBlocks _ _ = ⊥

  -- SHA-256 in hexadecimal has 64 digits, and an ISO time begins with a year of four and a dash.
  pub record Formats : Type 0 where
    pub hash_length : (x : Bytes) → length (v.sha256 x) ≡ 64
    pub stamps : (t : ℕ) → IsStamp (v.isoformat t)

  module _ (fmt : Formats) where
    preimage_parts :
        (b c : LedgerBlock P)
        → length b.payload_hash ≡ 64
        → length c.payload_hash ≡ 64
        → length b.prev_hash ≡ 64
        → length c.prev_hash ≡ 64
        → preimage v b.block_index b.ts b.payload_hash b.prev_hash
          ≡ preimage v c.block_index c.ts c.payload_hash c.prev_hash
        → (b.block_index ≡ c.block_index)
          × (v.isoformat (utc b.ts) ≡ v.isoformat (utc c.ts))
          × (b.payload_hash ≡ c.payload_hash)
          × (b.prev_hash ≡ c.prev_hash)
    unfolding preimage
    preimage_parts b c pb pc lb lc e =
        let (front, back) =
          split_at_length (str b.block_index ++ v.isoformat (utc b.ts))
            (b.payload_hash ++ b.prev_hash) (str c.block_index ++ v.isoformat (utc c.ts))
            (c.payload_hash ++ c.prev_hash)
            (omega (
              arith,
              length-append b.payload_hash b.prev_hash,
              length-append c.payload_hash c.prev_hash,
            ))
            e in
        let (index, time) =
          str-stamp_injective b.block_index c.block_index (v.isoformat (utc b.ts))
            (v.isoformat (utc c.ts)) (fmt.stamps (utc b.ts)) (fmt.stamps (utc c.ts)) front in
        let (payload, link) =
          split_at_length b.payload_hash b.prev_hash c.payload_hash c.prev_hash
            (omega (arith, lb, lc)) back in
        (index, time, payload, link)

    -- What `verify` has checked of one block.
    abbrev IsLinked : Bytes → LedgerBlock P → Type 0
    IsLinked prev b =
        (b.payload_hash ≡ hash_payload v b.payload)
        × (b.prev_hash ≡ prev)
        × (b.this_hash ≡ hash_block v b.block_index b.ts b.payload_hash b.prev_hash)

    same_block :
        (p q : Bytes) (b c : LedgerBlock P)
        → IsLinked p b
        → IsLinked q c
        → length p ≡ 64
        → length q ≡ 64
        → b.this_hash ≡ c.this_hash
        → (SameBlock b c × (p ≡ q)) ⊎ Collision
    unfolding hash_payload hash_block
    same_block p q b c hb hc lp lq e =
        elim (same_input (preimage v b.block_index b.ts b.payload_hash b.prev_hash)
          (preimage v c.block_index c.ts c.payload_hash c.prev_hash) (sym hb.2 ∙ e ∙ hc.2)) [
            | inr x ↦ inr x
            | inl same ↦
                let parts =
                  preimage_parts b c (ap length hb.0 ∙ fmt.hash_length _)
                    (ap length hc.0 ∙ fmt.hash_length _) (ap length hb.1 ∙ lp) (ap length hc.1 ∙ lq)
                    same in
                elim (same_input (v.canonical_json b.payload) (v.canonical_json c.payload)
                  (sym hb.0 ∙ parts.2 ∙ hc.0)) [
                    | inr x ↦ inr x
                    | inl text ↦ inl (
                      record { index = parts.0; time = parts.1; payload = text; link = parts.3 },
                      sym hb.1 ∙ parts.3 ∙ hc.1,
                    )
                  ]
          ]

    long :
        (b : LedgerBlock P)
        → b.this_hash ≡ hash_block v b.block_index b.ts b.payload_hash b.prev_hash
        → length b.this_hash ≡ 64
    unfolding hash_block
    long b e = ap length e ∙ fmt.hash_length _

    same_blocks :
        (bs cs : List (LedgerBlock P)) (p q : Bytes)
        → length bs ≡ length cs
        → length p ≡ 64
        → length q ≡ 64
        → verify_from v p bs ≡ valid_result v
        → verify_from v q cs ≡ valid_result v
        → end_hash p bs ≡ end_hash q cs
        → (SameBlocks bs cs × (p ≡ q)) ⊎ Collision
    unfolding end_hash
    same_blocks [] [] p q n lp lq vb vc e = inl (tt, e)
    same_blocks [] (c ∷ cs) p q n lp lq vb vc e = absurd (omega arith)
    same_blocks (b ∷ bs) [] p q n lp lq vb vc e = absurd (omega arith)
    same_blocks (b ∷ bs) (c ∷ cs) p q n lp lq vb vc e =
        let hb = verify_inv p b bs vb in
        let hc = verify_inv q c cs vc in
        elim (same_blocks bs cs b.this_hash c.this_hash (omega arith) (long b hb.2) (long c hc.2)
          hb.3 hc.3 e) [
            | inr x ↦ inr x
            | inl (rest, this) ↦
                elim (same_block p q b c (hb.0, hb.1, hb.2) (hc.0, hc.1, hc.2) lp lq this) [
                  | inr x ↦ inr x
                  | inl (block, link) ↦ inl ((block, rest), link)
                ]
          ]

    -- The last hash commits to the whole chain: two chains of equal length that `verify` accepts
    -- and that end in one hash agree in every block's number, UTC time, payload text and link,
    -- or else they exhibit two different texts with the same SHA-256.
    pub end_hash_commits :
        (bs cs : List (LedgerBlock P))
        → length bs ≡ length cs
        → verify_from v genesis_prev_hash bs ≡ valid_result v
        → verify_from v genesis_prev_hash cs ≡ valid_result v
        → end_hash genesis_prev_hash bs ≡ end_hash genesis_prev_hash cs
        → SameBlocks bs cs ⊎ Collision
    end_hash_commits bs cs n vb vc e =
        elim (same_blocks bs cs genesis_prev_hash genesis_prev_hash n refl refl vb vc e) [
          | inl (same, _) ↦ inl same
          | inr x ↦ inr x
        ]
