-- ===== src/Ledger/Examples.antt =====
-- The ledger of backend/app/services/ledger.py on concrete blocks, with a toy hash of 64 numbers.
use shtapm.Base.{ℕ, ◌+◌, ◌*◌, ◌≡◌, ◌≢◌, refl, ◌⊎◌, [], ◌∷◌, arith, none, some}
use shtapm.Base.Int.{pos}
use shtapm.Ledger.Digits.{Bytes}
use shtapm.Ledger.Chain.{
  Timestamp, LedgerBlock, Services, valid_result, genesis_prev_hash, zeros, next_block, verify_from,
  verify, blocks_of,
}
use shtapm.Ledger.Table.{verify_chain, Sorts, Entry, append_all, verify-append_all, Ascends}
use shtapm.Ledger.Tamper.{Collision, Formats, SameBlocks, end_hash_commits}
use shtapm.Ledger.Limits.{relabel, relabel_unnoticed, truncation_unnoticed}

-- A sum over the text, weighted by position, and 63 zeros.
weigh : ℕ → Bytes → ℕ
weigh n [] = n
weigh n (x ∷ xs) = weigh (n * 3 + x) xs

toy_hash : Bytes → Bytes
toy_hash x = weigh 0 x ∷ zeros 63

abbrev services : Services ℕ
services = record {
  sha256 = toy_hash;
  canonical_json = λ p. p ∷ [];
  isoformat = λ t. 50 ∷ 48 ∷ 50 ∷ 54 ∷ 45 ∷ t ∷ [];
  order_by_index = λ bs. bs;
}

services-Sorts : Sorts services
services-Sorts = record { keeps = λ bs h. refl }

services-Formats : Formats services
unfolding toy_hash
services-Formats = record {
  hash_length = λ x. refl;
  stamps = λ t. record {
    year = 50 ∷ 48 ∷ 50 ∷ 54 ∷ [];
    rest = t ∷ [];
    four = refl;
    digits = omega arith;
    shape = refl;
  };
}

abbrev noon : Timestamp
noon = record { wall = 7; offset = some (pos 0) }

abbrev entry : ℕ → ℕ → Entry services
entry device payload = record { device = device; event = 1 ∷ []; payload = payload; ts = noon }

verify-append_all_example :
    Ascends services 0
      (blocks_of services 1 (append_all services [] (entry 1 5 ∷ entry 2 6 ∷ entry 1 7 ∷ [])))
    × (verify services (append_all services [] (entry 1 5 ∷ entry 2 6 ∷ entry 1 7 ∷ [])) 1
        ≡ valid_result services)
verify-append_all_example =
    verify-append_all services services-Sorts (entry 1 5 ∷ entry 2 6 ∷ entry 1 7 ∷ []) 1

abbrev first : LedgerBlock ℕ
first = next_block services none 1 (1 ∷ []) 5 noon

abbrev second : LedgerBlock ℕ
second = next_block services (some first) 1 (1 ∷ []) 7 noon

accepted : verify_from services genesis_prev_hash (first ∷ second ∷ []) ≡ valid_result services
unfolding next_block
accepted =
    verify_chain services genesis_prev_hash 0 (first ∷ second ∷ [])
      (refl, refl, refl, refl, (refl, refl, refl, refl, tt))

end_hash_commits_example :
    SameBlocks services (first ∷ second ∷ []) (first ∷ second ∷ []) ⊎ Collision services
end_hash_commits_example =
    end_hash_commits services services-Formats (first ∷ second ∷ []) (first ∷ second ∷ []) refl
      accepted accepted refl

other_text : services.canonical_json 8 ≢ services.canonical_json second.payload
unfolding next_block
other_text e = cc

relabel_unnoticed_example :
    verify_from services genesis_prev_hash (relabel services (λ b. 9 ∷ []) (first ∷ second ∷ []))
    ≡ verify_from services genesis_prev_hash (first ∷ second ∷ [])
relabel_unnoticed_example =
    relabel_unnoticed services (λ b. 9 ∷ []) genesis_prev_hash (first ∷ second ∷ [])

truncation_unnoticed_example :
    verify_from services genesis_prev_hash (first ∷ []) ≡ valid_result services
truncation_unnoticed_example =
    truncation_unnoticed services (first ∷ []) genesis_prev_hash (second ∷ []) accepted
