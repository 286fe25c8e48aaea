-- ===== src/Enumerations/Tables.antt =====
-- HDG_ENUM_TEXT_TO_KEY_MAPPINGS of custom_components/hdg_boiler/helpers/enum_mappings.py. The
-- heating circuits have equal tables.
use hdg_bavaria_homeassistan.Prelude.{Text, codes, [], ◌∷◌}
use hdg_bavaria_homeassistan.Prelude.Dict.{Dict}

abbrev betriebsart : Dict Text
betriebsart =
    (codes "Normal", codes "NORMAL")
    ∷ (codes "Tagbetrieb", codes "TAG")
    ∷ (codes "Nachtbetrieb", codes "NACHT")
    ∷ (codes "Partybetrieb", codes "PARTY")
    ∷ (codes "Sommer- betrieb", codes "SOMMER")
    ∷ []

abbrev pub aktuelle_betriebsart : Dict Text
aktuelle_betriebsart =
    (codes "Abgesenkt", codes "abgesenkt")
    ∷ (codes "Aus", codes "aus")
    ∷ (codes "Standard", codes "standard")
    ∷ (codes "Tagbetrieb", codes "tag")
    ∷ (codes "Nachtbetrieb", codes "nacht")
    ∷ (codes "Partybetrieb", codes "party")
    ∷ (codes "Urlaubs- betrieb", codes "urlaub")
    ∷ (codes "Sommer- betrieb", codes "sommer")
    ∷ []

abbrev anlage_betriebsart : Dict Text
anlage_betriebsart =
    (codes "Normal", codes "normal")
    ∷ (codes "Urlaubs- betrieb", codes "urlaubs_betrieb")
    ∷ (codes "Sommer- betrieb", codes "sommerbetrieb")
    ∷ (codes "Frostschutz", codes "frostschutz")
    ∷ []

abbrev externe_warmequelle_betriebsart : Dict Text
externe_warmequelle_betriebsart =
    (codes "AUS", codes "aus")
    ∷ (codes "EIN", codes "ein")
    ∷ (codes "AUTO_EIN", codes "auto_ein")
    ∷ (codes "AUTO_AUS", codes "auto_aus")
    ∷ (codes "Aus", codes "aus")
    ∷ (codes "Ein", codes "ein")
    ∷ (codes "Auto", codes "auto_ein")
    ∷ []

abbrev pub hdg_enum_text_to_key_mappings : Dict (Dict Text)
hdg_enum_text_to_key_mappings =
    (codes "hk1_betriebsart", betriebsart)
    ∷ (codes "hk2_betriebsart", betriebsart)
    ∷ (codes "hk3_betriebsart", betriebsart)
    ∷ (codes "hk4_betriebsart", betriebsart)
    ∷ (codes "hk5_betriebsart", betriebsart)
    ∷ (codes "hk6_betriebsart", betriebsart)
    ∷ (codes "hk1_aktuelle_betriebsart", aktuelle_betriebsart)
    ∷ (codes "hk2_aktuelle_betriebsart", aktuelle_betriebsart)
    ∷ (codes "hk3_aktuelle_betriebsart", aktuelle_betriebsart)
    ∷ (codes "hk4_aktuelle_betriebsart", aktuelle_betriebsart)
    ∷ (codes "hk5_aktuelle_betriebsart", aktuelle_betriebsart)
    ∷ (codes "hk6_aktuelle_betriebsart", aktuelle_betriebsart)
    ∷ (codes "anlage_betriebsart", anlage_betriebsart)
    ∷ (codes "externe_warmequelle_betriebsart", externe_warmequelle_betriebsart)
    ∷ []
