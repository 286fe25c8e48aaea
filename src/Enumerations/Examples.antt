-- ===== src/Enumerations/Examples.antt =====
-- Labels of the boiler: custom_components/hdg_boiler/helpers/enum_mappings.py
use hdg_bavaria_homeassistan.Prelude.{◌≡◌, refl, codes, some, text_eq}
use hdg_bavaria_homeassistan.Prelude.Dict.{lookup}
use hdg_bavaria_homeassistan.Texts.{upper_text}
use hdg_bavaria_homeassistan.Enumerations.{resolve_hdg_enum_key}
use hdg_bavaria_homeassistan.Enumerations.Tables.{aktuelle_betriebsart}
use hdg_bavaria_homeassistan.Enumerations.Known.{known_texts_resolve}

known_texts_resolve_example :
    (resolve_hdg_enum_key (codes "Sommer- betrieb") aktuelle_betriebsart ≡ some (codes "sommer"))
    × (resolve_hdg_enum_key (codes "sommer") aktuelle_betriebsart ≡ some (codes "sommer"))
    × (resolve_hdg_enum_key (upper_text (codes "sommer")) aktuelle_betriebsart
        ≡ some (codes "sommer"))
unfolding lookup text_eq
known_texts_resolve_example =
    known_texts_resolve (codes "hk1_aktuelle_betriebsart") (codes "Sommer- betrieb")
      (codes "sommer") aktuelle_betriebsart refl refl

-- a label with a line break, and one with a tag
wrapped :
    resolve_hdg_enum_key (codes "Sommer-\r\nbetrieb") aktuelle_betriebsart ≡ some (codes "sommer")
unfolding resolve_hdg_enum_key text_eq
wrapped = refl

tagged :
    resolve_hdg_enum_key (codes "Urlaubs-<BR />betrieb") aktuelle_betriebsart
    ≡ some (codes "urlaub")
unfolding resolve_hdg_enum_key text_eq
tagged = refl
