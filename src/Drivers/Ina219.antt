-- ===== src/Drivers/Ina219.antt =====
-- `INA219CurrentReader` of edge/drivers/ina219.py. What smbus2 did in a call is an argument: whether
-- the bus could be opened, whether the write was taken, and the two bytes that were read. The bus
-- is seen through the register writes, with whether each was taken, and reads, newest first. A
-- byte is a number below 256.
use shtapm.Base.{
  ℕ, suc, ◌+◌, ◌-◌, ◌*◌, ◌/◌, ◌%◌, ◌≤◌, ◌<◌, ◌≡◌, refl, Bool, true, false, ◌||◌, ltb, Option, none,
  some, List, [], ◌∷◌, arith, Bool-cases, ◌∙◌, if◌then◌else◌, inl, inr,
}
use shtapm.Base.Int.{ℤ, pos, negsuc, pos_part, neg_part}
use shtapm.Base.Ratio.{Ratio, ◌*r◌}
use shtapm.Base.Stats.{over}

pub data Access : Type 0 where
  writes_calibration : ℕ → ℕ → Bool → Access
  reads_current : Access

pub record Reader : Type 0 where
  pub current_lsb : Ratio
  pub calibration : ℕ
  pub is_calibrated : Bool

-- 0.04096 / (lsb * shunt), truncated, for a positive product.
unfoldable pub calibration_of : Ratio → Ratio → ℕ
calibration_of lsb shunt =
    (4096 * (lsb.den * shunt.den)) / (100000 * (pos_part lsb.num * pos_part shunt.num))

-- `__init__`, of a maximal current and a shunt that are positive.
unfoldable pub new_reader : Ratio → Ratio → Reader
unfolding calibration_of
new_reader max_amps shunt_ohms =
    let lsb : Ratio = over max_amps 32767 in
    record { current_lsb = lsb; calibration = calibration_of lsb shunt_ohms; is_calibrated = false }

-- (c >> 8) & 0xFF and c & 0xFF.
abbrev pub high_byte : ℕ → ℕ
high_byte c = (c / 256) % 256

abbrev pub low_byte : ℕ → ℕ
low_byte c = c % 256

-- `int.from_bytes(..., byteorder="big", signed=True)` of two bytes.
unfoldable pub signed_16 : ℕ → ℕ → ℤ
signed_16 high low =
    let w = high * 256 + low in if ltb w 32768 then pos w else negsuc (65536 - w - 1)

abbrev pub amps_of : Reader → ℤ → Ratio
amps_of r counts = record { num = counts; den = 1 } *r r.current_lsb

-- What the bus does in one call.
pub record Bus : Type 0 where
  pub opens : Bool
  pub takes_write : Bool
  pub bytes : Option (ℕ × ℕ)

abbrev pub amps_read : Reader → Option (ℕ × ℕ) → Option Ratio
amps_read r none = none
amps_read r (some (high, low)) = some (amps_of r (signed_16 high low))

-- The register read after the calibration.
unfoldable pub read_register : Bus → Reader → List Access → (Reader × List Access) × Option Ratio
unfolding signed_16
read_register b r log = ((r, reads_current ∷ log), amps_read r b.bytes)

-- `_calibrate_once` and the read; a reader that is not calibrated yet writes first.
unfoldable pub read_open : Bus → Reader → List Access → (Reader × List Access) × Option Ratio
unfolding read_register
read_open b r log =
    let log' =
      writes_calibration (high_byte r.calibration) (low_byte r.calibration) b.takes_write ∷ log in
    if r.is_calibrated
    then read_register b r log
    else if b.takes_write
    then read_register b (record r { is_calibrated = true }) log'
    else ((r, log'), none)

-- `read_current_amps`; `none` is an exception.
unfoldable pub read_current_amps :
    Bus → Reader → List Access → (Reader × List Access) × Option Ratio
unfolding read_open
read_current_amps b r log = if b.opens then read_open b r log else ((r, log), none)

unfoldable pub read_each : List Bus → Reader → List Access → Reader × List Access
read_each [] r log = (r, log)
read_each (b ∷ bs) r log = let (r', log') = (read_current_amps b r log).0 in read_each bs r' log'

-- The sixteen bits of a number from -32768 to 32767, high byte first.
abbrev pub bits_of : ℤ → ℕ
bits_of (pos n) = n
bits_of (negsuc n) = 65536 - suc n

abbrev pub Is16 : ℤ → Type 0
Is16 z = (pos_part z < 32768) × (neg_part z ≤ 32768)

read_back : (z : ℤ) → Is16 z → signed_16 (high_byte (bits_of z)) (low_byte (bits_of z)) ≡ z
unfolding signed_16
read_back (pos n) h = ground arith
read_back (negsuc n) h = ground arith

-- The decoded current is the register's: any number of sixteen bits that the chip puts in it as two
-- bytes in two's complement, high byte first, is read back, and any two bytes give such a number.
pub signed_16_lem :
    (z : ℤ) (high low : ℕ)
    → Is16 z
    → high < 256
    → low < 256
    → (signed_16 (high_byte (bits_of z)) (low_byte (bits_of z)) ≡ z)
      × Is16 (signed_16 high low)
      × (bits_of (signed_16 high low) ≡ high * 256 + low)
unfolding signed_16
signed_16_lem z high low i h l = (read_back z i, ground arith, ground arith)

-- Some write of the calibration was taken.
abbrev pub written : List Access → Bool
written [] = false
written (writes_calibration h l taken ∷ older) = taken || written older
written (reads_current ∷ older) = written older

-- Each read came after a write that was taken, and each write before any other that was, with the
-- low sixteen bits of a calibration.
abbrev pub IsGuarded : ℕ → List Access → Type 0
IsGuarded c [] = Unit
IsGuarded c (writes_calibration h l taken ∷ older) =
    (written older ≡ false) × (h * 256 + l ≡ c % 65536) × IsGuarded c older
IsGuarded c (reads_current ∷ older) = (written older ≡ true) × IsGuarded c older

-- The reader knows whether it has calibrated.
abbrev Knows : ℕ → Reader × List Access → Type 0
Knows c (r, log) = (r.calibration ≡ c) × (written log ≡ r.is_calibrated) × IsGuarded c log

read_current_amps-Knows :
    (b : Bus) (c : ℕ) (r : Reader) (log : List Access)
    → Knows c (r, log)
    → Knows c (read_current_amps b r log).0
unfolding read_current_amps read_open read_register
read_current_amps-Knows b c r log (same, w, g) = elim (Bool-cases b.opens) [
  | inr shut ↦ rw (read_current_amps, shut) (same, w, g)
  | inl opens ↦ elim (Bool-cases r.is_calibrated) [
    | inl done ↦
        rw (read_current_amps, opens, read_open, done, read_register)
          (same, w ∙ done, (w ∙ done, g))
    | inr fresh ↦
        let bytes : high_byte r.calibration * 256 + low_byte r.calibration ≡ c % 65536 =
          omega (arith, same) in
        elim (Bool-cases b.takes_write) [
          | inl taken ↦
              rw (read_current_amps, opens, read_open, fresh, taken, read_register)
                (same, refl, (refl, (w ∙ fresh, bytes, g)))
          | inr refused ↦
              rw (read_current_amps, opens, read_open, fresh, refused)
                (same, w ∙ fresh, (w ∙ fresh, bytes, g))
        ]
  ]
]

read_each-Knows :
    (bs : List Bus) (c : ℕ) (r : Reader) (log : List Access)
    → Knows c (r, log)
    → Knows c (read_each bs r log)
unfolding read_each
read_each-Knows [] c r log k = k
read_each-Knows (b ∷ bs) c r log k =
    let (r', log') = (read_current_amps b r log).0 in
    read_each-Knows bs c r' log' (read_current_amps-Knows b c r log k)

-- No current is read before the chip is calibrated: whatever the bus does in any calls of a new
-- reader, each read of the current register comes after a calibration write that the chip took;
-- no write follows one that it took; and each write puts the low sixteen bits of the calibration
-- in the register.
pub reads_are_calibrated :
    (max_amps shunt : Ratio) (bs : List Bus)
    → IsGuarded
        (new_reader max_amps shunt).calibration
        (read_each bs (new_reader max_amps shunt) []).1
unfolding new_reader
reads_are_calibrated max_amps shunt bs =
    (read_each-Knows bs (new_reader max_amps shunt).calibration (new_reader max_amps shunt) []
      (refl, refl, tt)).2
