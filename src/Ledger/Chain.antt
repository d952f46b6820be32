-- ===== src/Ledger/Chain.antt =====
-- `append` and `verify` of backend/app/services/ledger.py, over the table of backend/app/models/
-- ledger.py as the list of its rows in the order of insertion. The hash, the JSON text of a
-- payload, the ISO text of a UTC time and the database's ORDER BY are parameters. Times are
-- numbers of microseconds.
use shtapm.Base.{
  ℕ, zero, suc, ◌+◌, ◌-◌, Bool, true, false, ◌==◌, Option, none, some, List, [], ◌∷◌, ◌++◌,
  if◌then◌else◌,
}
use shtapm.Base.Int.{ℤ, pos_part, neg_part}
use shtapm.Ledger.Digits.{Bytes, str}
use mathlib.Core.Logic.{ite}
use native.Mathlib.Decide.{ℕ_discrete}

pub Bytes-discrete : Discrete Bytes
Bytes-discrete = hlevel ℕ_discrete

-- A `datetime`: its wall clock, and its offset from UTC if it has one.
pub record Timestamp : Type 0 where
  pub wall : ℕ
  pub offset : Option ℤ

-- The UTC time that `_ts_for_hash` formats: a time without an offset is taken for UTC.
unfoldable pub utc : Timestamp → ℕ
utc ts = elim ts.offset [ none ↦ ts.wall | some o ↦ ts.wall + neg_part o - pos_part o ]

pub record LedgerBlock (P : Type 0) : Type 0 where
  pub device_id : ℕ
  pub block_index : ℕ
  pub ts : Timestamp
  pub event_type : Bytes
  pub payload : P
  pub payload_hash : Bytes
  pub prev_hash : Bytes
  pub this_hash : Bytes

pub record VerifyResult : Type 0 where
  pub valid : Bool
  pub broken_at : Option ℕ

abbrev pub zeros : ℕ → Bytes
zeros zero = []
zeros (suc n) = 48 ∷ zeros n

-- The last element, or what stood before.
abbrev pub last_after {ℓ} : {A : Type ℓ} → Option A → List A → Option A
last_after o [] = o
last_after o (x ∷ xs) = last_after (some x) xs

-- `GENESIS_PREV_HASH`: 64 characters "0".
abbrev pub genesis_prev_hash : Bytes
genesis_prev_hash = zeros 64

-- What the service calls: `hashlib.sha256(…).hexdigest()`, `json.dumps` with sorted keys,
-- `isoformat` of a UTC time, and the database's ORDER BY `block_index`.
pub record Services (P : Type 0) : Type 0 where
  pub sha256 : Bytes → Bytes
  pub canonical_json : P → Bytes
  pub isoformat : ℕ → Bytes
  pub order_by_index : List (LedgerBlock P) → List (LedgerBlock P)

module _ {P : Type 0} (v : Services P) where
  -- `_sha256_hex` of the canonical JSON.
  unfoldable pub hash_payload : P → Bytes
  hash_payload p = v.sha256 (v.canonical_json p)

  -- What `_sha256_hex` is fed for a block.
  unfoldable pub preimage : ℕ → Timestamp → Bytes → Bytes → Bytes
  unfolding utc
  preimage index ts payload_hash prev_hash =
      (str index ++ v.isoformat (utc ts)) ++ (payload_hash ++ prev_hash)

  unfoldable pub hash_block : ℕ → Timestamp → Bytes → Bytes → Bytes
  hash_block index ts payload_hash prev_hash = v.sha256 (preimage index ts payload_hash prev_hash)

  abbrev pub of_device : ℕ → List (LedgerBlock P) → List (LedgerBlock P)
  of_device device [] = []
  of_device device (b ∷ bs) =
      let rest = of_device device bs in if b.device_id == device then b ∷ rest else rest

  -- The rows of a device in ascending order.
  unfoldable pub blocks_of : ℕ → List (LedgerBlock P) → List (LedgerBlock P)
  blocks_of device rows = v.order_by_index (of_device device rows)

  abbrev pub next_index : Option (LedgerBlock P) → ℕ
  next_index none = 0
  next_index (some b) = b.block_index + 1

  abbrev pub last_hash : Option (LedgerBlock P) → Bytes
  last_hash none = genesis_prev_hash
  last_hash (some b) = b.this_hash

  -- The block that `append` writes behind `last`.
  unfoldable pub next_block : Option (LedgerBlock P) → ℕ → Bytes → P → Timestamp → LedgerBlock P
  unfolding hash_payload hash_block
  next_block last device event payload ts =
      let index = next_index last in
      let prev = last_hash last in
      record {
        device_id = device;
        block_index = index;
        ts = ts;
        event_type = event;
        payload = payload;
        payload_hash = hash_payload payload;
        prev_hash = prev;
        this_hash = hash_block index ts (hash_payload payload) prev;
      }

  -- `append`, at the time `datetime.now(UTC)`: descending order and `first` give the last row.
  unfoldable pub append : List (LedgerBlock P) → ℕ → Bytes → P → Timestamp → List (LedgerBlock P)
  unfolding blocks_of next_block
  append rows device event payload ts =
      rows ++ next_block (last_after none (blocks_of device rows)) device event payload ts ∷ []

  abbrev pub valid_result : VerifyResult
  valid_result = record { valid = true; broken_at = none }

  abbrev pub broken : LedgerBlock P → VerifyResult
  broken b = record { valid = false; broken_at = some b.block_index }

  -- The loop of `verify`.
  unfoldable pub verify_from : Bytes → List (LedgerBlock P) → VerifyResult
  unfolding hash_payload hash_block
  verify_from expected_prev [] = valid_result
  verify_from expected_prev (b ∷ bs) =
      let rest = verify_from b.this_hash bs in
      ite (Bytes-discrete b.payload_hash (hash_payload b.payload))
        (ite (Bytes-discrete b.prev_hash expected_prev)
          (ite
            (Bytes-discrete b.this_hash (hash_block b.block_index b.ts b.payload_hash b.prev_hash))
            rest (broken b))
          (broken b))
        (broken b)

  unfoldable pub verify : List (LedgerBlock P) → ℕ → VerifyResult
  unfolding verify_from blocks_of
  verify rows device = verify_from genesis_prev_hash (blocks_of device rows)
