-- ===== src/Trust/Bands.antt =====
-- edge/trust/beta.py and engine.py: trust bands, and the reading of one channel.
use shtapm.Base.{if◌then◌else◌}
use shtapm.Base.Ratio.{Ratio, frac, leb_r, ltb_r}

-- `TRUSTED_MIN` 0.7 and `MALICIOUS_MAX` 0.4.
abbrev pub trusted_min : Ratio
trusted_min = frac 7 10

abbrev pub malicious_max : Ratio
malicious_max = frac 4 10

pub data TrustBand : Type 0 where
  trusted suspicious malicious : TrustBand

unfoldable pub classify : Ratio → TrustBand
classify trust =
    if leb_r trusted_min trust
    then trusted
    else if ltb_r trust malicious_max
    then malicious
    else suspicious

-- `TrustReading` of edge/trust/engine.py; its channel is the key that it is stored under.
pub record TrustReading : Type 0 where
  pub g : Ratio
  pub trust : Ratio
  pub band : TrustBand
