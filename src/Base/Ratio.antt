-- ===== src/Base/Ratio.antt =====
-- Exact fractions with a sign, in place of the program's floats: a numerator over a denominator,
-- which a valid fraction has positive. Equal fractions may be written differently.
use shtapm.Base.{ℕ, ◌+◌, ◌-◌, ◌*◌, ◌≤◌, ◌<◌, Bool, ltb, leb, if◌then◌else◌}
use shtapm.Base.Int.{ℤ, pos, negsuc, pos_part, neg_part}

pub record Ratio : Type 0 where
  pub num : ℤ
  pub den : ℕ

abbrev pub IsFraction : Ratio → Type 0
IsFraction x = 0 < x.den

abbrev pub frac : ℕ → ℕ → Ratio
frac n d = record { num = pos n; den = d }

-- x ≤ y and x < y, across the denominators.
abbrev pub ◌≤r◌ : Ratio → Ratio → Type 0
◌≤r◌ x y =
    pos_part x.num * y.den + neg_part y.num * x.den
    ≤ pos_part y.num * x.den + neg_part x.num * y.den

abbrev pub leb_r : Ratio → Ratio → Bool
leb_r x y =
    leb (pos_part x.num * y.den + neg_part y.num * x.den)
      (pos_part y.num * x.den + neg_part x.num * y.den)

abbrev pub ltb_r : Ratio → Ratio → Bool
ltb_r x y =
    ltb (pos_part x.num * y.den + neg_part y.num * x.den)
      (pos_part y.num * x.den + neg_part x.num * y.den)

-- n as an integer difference, a - b.
abbrev pub diff : ℕ → ℕ → ℤ
diff a b = if leb b a then pos (a - b) else negsuc (b - a - 1)

infixl 65 ◌-r◌
unfoldable pub ◌-r◌ : Ratio → Ratio → Ratio
x -r y = record {
  num =
      diff (pos_part x.num * y.den + neg_part y.num * x.den)
        (neg_part x.num * y.den + pos_part y.num * x.den);
  den = x.den * y.den;
}

infixl 65 ◌+r◌
unfoldable pub ◌+r◌ : Ratio → Ratio → Ratio
x +r y = record {
  num =
      diff (pos_part x.num * y.den + pos_part y.num * x.den)
        (neg_part x.num * y.den + neg_part y.num * x.den);
  den = x.den * y.den;
}

unfoldable pub half : Ratio → Ratio
half x = record x { den = 2 * x.den }

infixl 70 ◌*r◌ ◌/r◌
unfoldable pub ◌*r◌ : Ratio → Ratio → Ratio
x *r y = record {
  num =
      diff (pos_part x.num * pos_part y.num + neg_part x.num * neg_part y.num)
        (pos_part x.num * neg_part y.num + neg_part x.num * pos_part y.num);
  den = x.den * y.den;
}

-- x over a positive y.
unfoldable pub ◌/r◌ : Ratio → Ratio → Ratio
x /r y = record {
  num = diff (pos_part x.num * y.den) (neg_part x.num * y.den);
  den = x.den * pos_part y.num;
}
