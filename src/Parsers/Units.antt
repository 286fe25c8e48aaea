-- ===== src/Parsers/Units.antt =====
-- The units of `_COMMON_UNITS_REGEX` of custom_components/hdg_boiler/helpers/parsers.py, each once: a
-- match ends the text, so the order of the alternatives is of no effect.
use hdg_bavaria_homeassistan.Prelude.{Text, codes, List, [], ◌∷◌}

unfoldable pub common_units : List Text
common_units =
    codes "°C"
    ∷ codes "K"
    ∷ codes "%"
    ∷ codes "Std"
    ∷ codes "min"
    ∷ codes "s"
    ∷ codes "pa"
    ∷ codes "kw"
    ∷ codes "kWh"
    ∷ codes "MWh"
    ∷ codes "l"
    ∷ codes "l/h"
    ∷ codes "m3/h"
    ∷ codes "bar"
    ∷ codes "rpm"
    ∷ codes "A"
    ∷ codes "V"
    ∷ codes "Hz"
    ∷ codes "ppm"
    ∷ codes "pH"
    ∷ codes "µS/cm"
    ∷ codes "mS/cm"
    ∷ codes "mg/l"
    ∷ codes "g/l"
    ∷ codes "kg/l"
    ∷ codes "m3"
    ∷ codes "m"
    ∷ codes "mm"
    ∷ codes "cm"
    ∷ codes "km"
    ∷ codes "g"
    ∷ codes "kg"
    ∷ codes "t"
    ∷ codes "Wh"
    ∷ codes "kJ"
    ∷ codes "MJ"
    ∷ codes "kcal"
    ∷ codes "Mcal"
    ∷ codes "l/min"
    ∷ codes "m3/min"
    ∷ codes "m/s"
    ∷ codes "km/h"
    ∷ codes "m/h"
    ∷ codes "°F"
    ∷ codes "psi"
    ∷ codes "mbar"
    ∷ codes "hPa"
    ∷ codes "kPa"
    ∷ codes "MPa"
    ∷ codes "GW"
    ∷ codes "MW"
    ∷ codes "VA"
    ∷ codes "kVA"
    ∷ codes "MVA"
    ∷ codes "VAR"
    ∷ codes "kVAR"
    ∷ codes "MVAR"
    ∷ codes "PF"
    ∷ codes "cosΦ"
    ∷ codes "lux"
    ∷ codes "lm"
    ∷ codes "cd"
    ∷ codes "lx"
    ∷ codes "W/m2"
    ∷ codes "J/m2"
    ∷ codes "kWh/m2"
    ∷ codes "ppb"
    ∷ codes "mg/m3"
    ∷ codes "g/m3"
    ∷ codes "kg/m3"
    ∷ codes "m3/m3"
    ∷ codes "l/l"
    ∷ codes "g/g"
    ∷ codes "kg/kg"
    ∷ codes "t/t"
    ∷ codes "Wh/Wh"
    ∷ codes "J/J"
    ∷ codes "kcal/kcal"
    ∷ codes "l/min/m2"
    ∷ codes "m3/min/m2"
    ∷ codes "m/s/m2"
    ∷ codes "km/h/m2"
    ∷ codes "m/h/m2"
    ∷ codes "°F/min"
    ∷ codes "psi/min"
    ∷ codes "mbar/min"
    ∷ codes "hPa/min"
    ∷ codes "kPa/min"
    ∷ codes "MPa/min"
    ∷ codes "GW/min"
    ∷ codes "MW/min"
    ∷ codes "VA/min"
    ∷ codes "kVA/min"
    ∷ codes "MVA/min"
    ∷ codes "PF/min"
    ∷ codes "cosΦ/min"
    ∷ codes "lux/min"
    ∷ codes "lm/min"
    ∷ codes "cd/min"
    ∷ codes "lx/min"
    ∷ codes "W/m2/min"
    ∷ codes "J/m2/min"
    ∷ codes "kWh/m2/min"
    ∷ codes "ppm/min"
    ∷ codes "ppb/min"
    ∷ codes "mg/m3/min"
    ∷ codes "g/m3/min"
    ∷ codes "kg/m3/min"
    ∷ codes "t/t/min"
    ∷ codes "Wh/Wh/min"
    ∷ codes "J/J/min"
    ∷ codes "kcal/kcal/min"
    ∷ codes "Schritte"
    ∷ []
