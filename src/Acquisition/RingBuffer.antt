-- ===== src/Acquisition/RingBuffer.antt =====
-- edge/acquisition/ring_buffer.py: a bounded buffer that overwrites its oldest item. A
-- `deque(maxlen=n)` drops from the left on append.
use shtapm.Base.{
  ℕ, ◌-◌, ◌+◌, ◌≤◌, ◌≡◌, Bool, ltb, ◌==◌, List, [], ◌∷◌, ◌++◌, length, drop, arith, Option, none,
  some, if◌then◌else◌, refl, length-append, length-drop, append_assoc, append-nil, ◌∙◌, sym, zero,
  suc, ap,
}

pub record RingBuffer (T : Type 0) : Type 0 where
  pub capacity : ℕ
  pub items : List T

-- `RingBuffer(capacity)`; `none` is the ValueError.
unfoldable pub new_buffer : {T : Type 0} → ℕ → Option (RingBuffer T)
new_buffer capacity =
    if ltb capacity 1 then none else some (record { capacity = capacity; items = [] })

unfoldable pub push : {T : Type 0} → T → RingBuffer T → RingBuffer T
push item b =
    let longer = b.items ++ (item ∷ []) in
    record b { items = drop (length longer - b.capacity) longer }

abbrev pub snapshot : {T : Type 0} → RingBuffer T → List T
snapshot b = b.items

unfoldable pub is_full : {T : Type 0} → RingBuffer T → Bool
is_full b = length b.items == b.capacity

unfoldable pub clear : {T : Type 0} → RingBuffer T → RingBuffer T
clear b = record b { items = [] }

unfoldable pub extend : {T : Type 0} → List T → RingBuffer T → RingBuffer T
extend [] b = b
extend (item ∷ rest) b = extend rest (push item b)

module _ {T : Type 0} where
  pub drop-append : (n : ℕ) (xs ys : List T) → n ≤ length xs → drop n (xs ++ ys) ≡ drop n xs ++ ys
  drop-append zero xs ys h = refl
  drop-append (suc n) [] ys h = ground arith
  drop-append (suc n) (x ∷ xs) ys h = drop-append n xs ys (omega (arith, h))

  drop-drop : (m n k : ℕ) (xs : List T) → k ≡ n + m → drop m (drop n xs) ≡ drop k xs
  drop-drop m zero k xs e = let q : m ≡ k = omega (arith, e) in ap (λ i. drop i xs) q
  drop-drop m (suc n) zero xs e = ground arith
  drop-drop zero (suc n) (suc k) [] e = refl
  drop-drop (suc m) (suc n) (suc k) [] e = refl
  drop-drop m (suc n) (suc k) (x ∷ xs) e = drop-drop m n k xs (omega (arith, e))

  -- The newest c of a list that has lost no more than it had over c.
  pub newest-drop :
      (c d : ℕ) (xs : List T)
      → d ≤ length xs - c
      → drop (length (drop d xs) - c) (drop d xs) ≡ drop (length xs - c) xs
  newest-drop c d xs h =
      drop-drop (length (drop d xs) - c) d (length xs - c) xs (omega (arith, h, length-drop d xs))

  length-push :
      (item : T) (b : RingBuffer T) → 1 ≤ b.capacity → length (push item b).items ≤ b.capacity
  unfolding push
  length-push item b h =
      omega
        (arith, length-drop (length (b.items ++ (item ∷ [])) - b.capacity) (b.items ++ (item ∷ [])))

  push-extend :
      (item : T) (rest : List T) (b : RingBuffer T)
      → 1 ≤ b.capacity
      → let all : List T = b.items ++ (item ∷ rest) in
        let kept : List T = (push item b).items ++ rest in
        drop (length kept - b.capacity) kept ≡ drop (length all - b.capacity) all
  unfolding push
  push-extend item rest b h =
      let one_more = b.items ++ (item ∷ []) in
      let all = b.items ++ (item ∷ rest) in
      let d = length one_more - b.capacity in
      let same : one_more ++ rest ≡ all = append_assoc b.items (item ∷ []) rest in
      let kept : drop d one_more ++ rest ≡ drop d all =
        sym (drop-append d one_more rest (omega arith)) ∙ ap (drop d) same in
      ap (λ k. drop (length k - b.capacity) k) kept
      ∙ newest-drop b.capacity d all
          (omega (arith, length-append b.items (item ∷ []), length-append b.items (item ∷ rest)))

  few :
      {b : RingBuffer T} (xs : List T)
      → xs ≡ b.items
      → length b.items ≤ b.capacity
      → b.items ≡ drop (length xs - b.capacity) xs
  few {b} xs e h =
      let none_lost : 0 ≡ length xs - b.capacity = rw e (omega (arith, h)) in
      sym e ∙ ap (λ k. drop k xs) none_lost

  -- A buffer that gets items in turn holds the newest of all it has ever held, up to its
  -- capacity, in their order. It has room for one item and does not hold too many before.
  pub extend_lem :
      (items : List T) (b : RingBuffer T)
      → 1 ≤ b.capacity
      → length b.items ≤ b.capacity
      → let all : List T = b.items ++ items in
        ((extend items b).items ≡ drop (length all - b.capacity) all)
        × ((extend items b).capacity ≡ b.capacity)
  unfolding extend push
  extend_lem [] b c h = (few (b.items ++ []) (append-nil b.items) h, refl)
  extend_lem (item ∷ rest) b c h =
      let (kept, same) = extend_lem rest (push item b) c (length-push item b c) in
      (kept ∙ push-extend item rest b c, same)
