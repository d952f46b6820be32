-- ===== src/Drivers/Examples.antt =====
-- The drivers of edge/drivers on concrete bytes and reads.
use shtapm.Base.{◌*◌, ◌+◌, ◌≡◌, refl, true, false, none, some, List, [], ◌∷◌, arith, ltb}
use shtapm.Base.Int.{negsuc}
use shtapm.Base.Ratio.{frac}
use shtapm.Acquisition.Sampler.{healthy}
use shtapm.Drivers.Sensor.{raised, number, Sensor, new_sensor, read}
use shtapm.Drivers.Stuck.{read_all, fails, repeats, by_age, stuck_is_unhealthy}
use shtapm.Drivers.Ina219.{
  Bus, Is16, bits_of, high_byte, low_byte, signed_16, signed_16_lem, new_reader, read_each,
  IsGuarded, calibration_of, reads_are_calibrated,
}
use shtapm.Drivers.Mcp3008.{
  Transfer, vibrations, first_answer, Tells, kept, vibrations_lem, count_of, read_raw_xyz,
}

abbrev limited : Sensor
limited = new_sensor none none (some 5000)

-- The value 1/2 at 0 s, then 2/4 at 3 s and an exception at 4 s, and 1/2 again at 6 s.
stuck_is_unhealthy_example :
    ((read (number (frac 1 2)) 0 limited).1 ≡ healthy (frac 1 2))
    × ((read (number (frac 1 2)) 6000 (
          read_all
            ((number (frac 2 4), 3000) ∷ (raised, 4000) ∷ [])
            (read (number (frac 1 2)) 0 limited).0)).1
        ≡ by_age (frac 1 2) (ltb (0 + 5000) 6000))
stuck_is_unhealthy_example =
    stuck_is_unhealthy limited (number (frac 1 2)) (number (frac 1 2)) (frac 1 2) (frac 1 2) 5000 0
      6000 ((number (frac 2 4), 3000) ∷ (raised, 4000) ∷ []) refl refl refl
      (repeats {x = frac 2 4} refl refl, (fails refl, tt)) refl refl

-- -2 amounts to FFFE.
signed_16_lem_example :
    (signed_16 (high_byte (bits_of (negsuc 1))) (low_byte (bits_of (negsuc 1))) ≡ negsuc 1)
    × Is16 (signed_16 255 254)
    × (bits_of (signed_16 255 254) ≡ 255 * 256 + 254)
signed_16_lem_example =
    signed_16_lem (negsuc 1) 255 254 (omega arith, omega arith) (omega arith) (omega arith)

-- A write that is refused, one that is taken, and a read.
abbrev calls : List Bus
calls =
    record { opens = true; takes_write = false; bytes = none }
    ∷ record { opens = true; takes_write = true; bytes = none }
    ∷ record { opens = true; takes_write = true; bytes = some (0, 1) }
    ∷ []

reads_are_calibrated_example :
    IsGuarded
      (new_reader (frac 5 1) (frac 1 10)).calibration
      (read_each calls (new_reader (frac 5 1) (frac 1 10)) []).1
reads_are_calibrated_example = reads_are_calibrated (frac 5 1) (frac 1 10) calls

-- The bench's calibration constant.
bench_calibration : (new_reader (frac 5 1) (frac 1 10)).calibration ≡ 2684
unfolding new_reader calibration_of
bench_calibration = refl

-- A silent transfer, one at rest, and a failed one.
abbrev transfers : List Transfer
transfers =
    record { x = some (3, 255); y = some (3, 255); z = some (3, 255) }
    ∷ record { x = some (2, 0); y = some (2, 1); z = some (2, 2) }
    ∷ record { x = none; y = none; z = none }
    ∷ []

vibrations_lem_example :
    ((vibrations (λ x. x) transfers none).0 ≡ kept (λ x. x) none (first_answer transfers))
    × Tells transfers (vibrations (λ x. x) transfers none).1
vibrations_lem_example = vibrations_lem (λ x. x) transfers none

baseline_is_at_rest : first_answer transfers ≡ some (record { x = 512; y = 513; z = 514 })
unfolding first_answer read_raw_xyz count_of
baseline_is_at_rest = refl
