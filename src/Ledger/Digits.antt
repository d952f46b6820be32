-- ===== src/Ledger/Digits.antt =====
-- `str` of a block index, as bytes, and why it can be read back in front of an ISO timestamp.
use mathlib.Core.Path.{ap₂}
use shtapm.Base.{
  ℕ, zero, suc, ◌+◌, ◌*◌, ◌/◌, ◌%◌, ◌≤◌, ◌<◌, ◌≡◌, refl, sym, ap, ◌∙◌, inl, inr, List, [], ◌∷◌,
  ◌++◌, append_assoc, arith, All, ltb, ltb→lt, Bool-cases, ◌-◌, if◌then◌else◌, length,
  length-append,
}

abbrev pub Bytes : Type 0
Bytes = List ℕ

abbrev digit : ℕ → ℕ
digit d = 48 + d

-- The decimal digits of a number that has at most as many digits as the fuel.
digits_of : ℕ → ℕ → Bytes
digits_of zero n = []
digits_of (suc f) n =
    let front = digits_of f (n / 10) in
    if ltb n 10 then digit n ∷ [] else front ++ digit (n % 10) ∷ []

-- `str(n)`.
unfoldable pub str : ℕ → Bytes
unfolding digits_of
str n = digits_of (suc n) n

-- The number that digits spell, read on from `acc`.
read : ℕ → Bytes → ℕ
read acc [] = acc
read acc (d ∷ ds) = read (acc * 10 + (d - 48)) ds

read-append : (acc d : ℕ) (ds : Bytes) → read acc (ds ++ d ∷ []) ≡ read acc ds * 10 + (d - 48)
unfolding read
read-append acc d [] = refl
read-append acc d (e ∷ ds) = read-append (acc * 10 + (e - 48)) d ds

read-digits_of : (f n : ℕ) → n < f → read 0 (digits_of f n) ≡ n
unfolding digits_of read
read-digits_of zero n h = elim h [ ]
read-digits_of (suc f) n h = elim (Bool-cases (ltb n 10)) [
  | inl e ↦ rw e (omega arith)
  | inr e ↦ rw e (
      ground (arith, read-append 0 (48 + n % 10) (digits_of f (n / 10)), read-digits_of f (n / 10)))
]

-- A byte that is a decimal digit.
abbrev pub IsDigit : ℕ → Type 0
IsDigit d = (48 ≤ d) × (d ≤ 57)

All-append : (xs ys : Bytes) → All IsDigit xs → All IsDigit ys → All IsDigit (xs ++ ys)
All-append [] ys hx hy = hy
All-append (x ∷ xs) ys hx hy = (hx.0, All-append xs ys hx.1 hy)

digits_of-IsDigit : (f n : ℕ) → All IsDigit (digits_of f n)
unfolding digits_of
digits_of-IsDigit zero n = tt
digits_of-IsDigit (suc f) n = elim (Bool-cases (ltb n 10)) [
  | inl e ↦ rw e (omega (arith, ltb→lt n 10 e), tt)
  | inr e ↦
      rw e (All-append (digits_of f (n / 10)) _ (digits_of-IsDigit f (n / 10)) (omega arith, tt))
]

pub str-IsDigit : (n : ℕ) → All IsDigit (str n)
unfolding str
str-IsDigit n = digits_of-IsDigit (suc n) n

pub str-injective : (m n : ℕ) → str m ≡ str n → m ≡ n
unfolding str
str-injective m n e =
    sym (read-digits_of (suc m) m (omega arith))
    ∙ ap (read 0) e
    ∙ read-digits_of (suc n) n (omega arith)

abbrev dash : ℕ
dash = 45

-- Digits in front of a dash can be told from what follows.
split_at_dash :
    (xs ys rest rest' : Bytes)
    → All IsDigit xs
    → All IsDigit ys
    → xs ++ dash ∷ rest ≡ ys ++ dash ∷ rest'
    → (xs ≡ ys) × (rest ≡ rest')
split_at_dash [] [] rest rest' hx hy e = (refl, cc)
split_at_dash [] (y ∷ ys) rest rest' hx hy e = ground (arith)
split_at_dash (x ∷ xs) [] rest rest' hx hy e = ground arith
split_at_dash (x ∷ xs) (y ∷ ys) rest rest' hx hy e =
    ground (arith, split_at_dash xs ys rest rest' hx.1 hy.1)

-- Parts of equal length at the end can be told from what stands before them.
pub split_at_length {ℓ} :
    {A : Type ℓ} (xs ys zs ws : List A)
    → length ys ≡ length ws
    → xs ++ ys ≡ zs ++ ws
    → (xs ≡ zs) × (ys ≡ ws)
split_at_length [] ys [] ws h e = (refl, e)
split_at_length [] ys (z ∷ zs) ws h e = absurd (omega (arith, ap length e, length-append zs ws))
split_at_length (x ∷ xs) ys [] ws h e = absurd (omega (arith, ap length e, length-append xs ys))
split_at_length (x ∷ xs) ys (z ∷ zs) ws h e = ground (arith, split_at_length xs ys zs ws h)

-- An ISO timestamp: four digits of the year, a dash, and the rest.
pub record IsStamp (s : Bytes) : Type 0 where
  pub year : Bytes
  pub rest : Bytes
  pub four : length year ≡ 4
  pub digits : All IsDigit year
  pub shape : s ≡ year ++ 45 ∷ rest

-- A number printed in front of an ISO timestamp can be read back.
pub str-stamp_injective :
    (m n : ℕ) (s t : Bytes) → IsStamp s → IsStamp t → str m ++ s ≡ str n ++ t → (m ≡ n) × (s ≡ t)
str-stamp_injective m n s t hs ht e =
    let (front, back) =
      split_at_dash (str m ++ hs.year) (str n ++ ht.year) hs.rest ht.rest
        (All-append (str m) hs.year (str-IsDigit m) hs.digits)
        (All-append (str n) ht.year (str-IsDigit n) ht.digits)
        (simp append_assoc (rw (← hs.shape, ← ht.shape) e)) in
    let (same, year) =
      split_at_length (str m) hs.year (str n) ht.year (omega (arith, hs.four, ht.four)) front in
    (str-injective m n same, hs.shape ∙ ap₂ (λ y r. y ++ 45 ∷ r) year back ∙ sym ht.shape)
