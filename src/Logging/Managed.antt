-- ===== src/Logging/Managed.antt =====
-- The filters that `configure_loggers` of custom_components/hdg_boiler/helpers/logging_utils.py leaves
-- on the loggers of the integration.
use mathlib.Core.Path.{subst}
use hdg_bavaria_homeassistan.Prelude.{
  ℕ, ◌≡◌, refl, sym, ap, ◌∙◌, ◌⊎◌, inl, inr, Text, Bool, true, false, Option, none, some, List, [],
  ◌∷◌, any, all, arith, text_eq, text_eq_iff, text_eq_refl, Bool-cases,
}
use hdg_bavaria_homeassistan.Prelude.Dict.{Dict, lookup, lookup-insert}
use hdg_bavaria_homeassistan.Polling.{is_listed}
use hdg_bavaria_homeassistan.Logging.Records.{
  Filter, version_filter, redaction_filter, advanced_filter, spammy_logger_names,
}
use hdg_bavaria_homeassistan.Logging.{
  Logger, get_logger, is_managed, is_version, is_redaction, unmanaged, new_filters,
  configure_logger, configure_each, redacted_logger, ensure_record_filters, add_unless, with_level,
  is_integration_logger, filters_at,
}

abbrev all_managed : List Filter → Bool
all_managed fs = all is_managed fs

unmanaged-all_managed : (fs : List Filter) → all_managed fs ≡ true → unmanaged fs ≡ []
unfolding unmanaged
unmanaged-all_managed [] h = refl
unmanaged-all_managed (f ∷ fs) h = ground (arith, unmanaged-all_managed fs, h)

add_unless-all_managed :
    (b : Bool) (f : Filter) (fs : List Filter)
    → is_managed f ≡ true
    → all_managed fs ≡ true
    → all_managed (add_unless b f fs) ≡ true
unfolding add_unless
add_unless-all_managed true f fs h k = k
add_unless-all_managed false f [] h k = ground (arith, h)
add_unless-all_managed false f (g ∷ fs) h k = ground (arith, add_unless-all_managed false f fs h, k)

ensure-all_managed :
    (l : Logger)
    → all_managed l.filters ≡ true
    → all_managed (ensure_record_filters l).filters ≡ true
unfolding ensure_record_filters is_managed
ensure-all_managed l h =
    let versioned = add_unless (any is_version l.filters) version_filter l.filters in
    add_unless-all_managed (any is_redaction l.filters) redaction_filter versioned refl
      (add_unless-all_managed (any is_version l.filters) version_filter l.filters refl h)

redacted_logger-all_managed :
    (current : Option ℕ) (name : Text) (loggers : Dict Logger)
    → all_managed (filters_at name loggers) ≡ true
    → all_managed (redacted_logger current name loggers).filters ≡ true
unfolding redacted_logger with_level
redacted_logger-all_managed none name loggers h =
    ensure-all_managed (get_logger (lookup name loggers)) h
redacted_logger-all_managed (some level) name loggers h =
    let rest = ensure-all_managed (get_logger (lookup name loggers)) h in
    elim (Bool-cases (is_integration_logger name)) [ inl e ↦ rw (e) rest | inr e ↦ rw (e) rest ]

-- The filters of a logger of the integration, in order.
unfoldable pub filters_for : Bool → Bool → List Filter
filters_for is_advanced true = advanced_filter is_advanced ∷ version_filter ∷ redaction_filter ∷ []
filters_for is_advanced false = version_filter ∷ redaction_filter ∷ []

abbrev pub expected_filters : Bool → Text → List Filter
expected_filters is_advanced name = filters_for is_advanced (is_listed name spammy_logger_names)

filters_for-all_managed : (a b : Bool) → all_managed (filters_for a b) ≡ true
unfolding filters_for is_managed
filters_for-all_managed a true = refl
filters_for-all_managed a false = refl

new_filters-expected :
    (is_advanced : Bool) (name : Text) (old : List Filter)
    → all_managed old ≡ true
    → new_filters is_advanced name old ≡ expected_filters is_advanced name
unfolding new_filters filters_for
new_filters-expected is_advanced name old h =
    elim (Bool-cases (is_listed name spammy_logger_names)) [
      | inl e ↦ rw (e, unmanaged-all_managed old h) refl
      | inr e ↦ rw (e, unmanaged-all_managed old h) refl
    ]

module _ (log_level : ℕ) (is_advanced : Bool) (name : Text) where
  configured_filters :
      (loggers : Dict Logger)
      → all_managed (filters_at name loggers) ≡ true
      → filters_at name (configure_logger log_level is_advanced name loggers)
        ≡ expected_filters is_advanced name
  unfolding configure_logger get_logger
  configured_filters loggers h =
      ap (λ o. (get_logger o).filters) (lookup-insert name name _ loggers)
      ∙ rw (text_eq_refl name) (
          new_filters-expected is_advanced name
            (redacted_logger (some log_level) name loggers).filters
            (redacted_logger-all_managed (some log_level) name loggers h))

  other_filters :
      (n : Text) (loggers : Dict Logger)
      → text_eq n name ≡ false
      → filters_at name (configure_logger log_level is_advanced n loggers) ≡ filters_at name loggers
  unfolding configure_logger
  other_filters n loggers h =
      ap (λ o. (get_logger o).filters) (lookup-insert n name _ loggers) ∙ rw (h) refl

  still_known :
      (n : Text) (names : List Text) (loggers : Dict Logger)
      → text_eq n name ≡ false
      → (is_listed name (n ∷ names) ≡ true)
        ⊎ (filters_at name loggers ≡ expected_filters is_advanced name)
      → (is_listed name names ≡ true)
        ⊎ (filters_at name (configure_logger log_level is_advanced n loggers)
            ≡ expected_filters is_advanced name)
  unfolding is_listed
  still_known n names loggers differs (inl e) = inl (ground (arith, e, differs))
  still_known n names loggers differs (inr e) = inr (other_filters n loggers differs ∙ e)

  pub filters-configure_each :
      (names : List Text) (loggers : Dict Logger)
      → all_managed (filters_at name loggers) ≡ true
      → (is_listed name names ≡ true)
        ⊎ (filters_at name loggers ≡ expected_filters is_advanced name)
      → filters_at name (configure_each log_level is_advanced names loggers)
        ≡ expected_filters is_advanced name
  unfolding configure_each is_listed
  filters-configure_each [] loggers h (inl e) = absurd (cc)
  filters-configure_each [] loggers h (inr e) = e
  filters-configure_each (n ∷ names) loggers h known = elim (Bool-cases (text_eq n name)) [
    | inl same ↦
        let set : filters_at name (configure_logger log_level is_advanced n loggers)
            ≡ expected_filters is_advanced name =
          subst
            (λ m.
              filters_at name (configure_logger log_level is_advanced m loggers)
              ≡ expected_filters is_advanced name)
            (sym ((text_eq_iff n name).0 same)) (configured_filters loggers h) in
        filters-configure_each names (configure_logger log_level is_advanced n loggers)
          (ap all_managed set
            ∙ filters_for-all_managed is_advanced (is_listed name spammy_logger_names))
          (inr set)
    | inr differs ↦
        let kept = other_filters n loggers differs in
        filters-configure_each names (configure_logger log_level is_advanced n loggers)
          (ap all_managed kept ∙ h) (still_known n names loggers differs known)
  ]
