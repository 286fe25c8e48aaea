-- ===== src/Redaction.antt =====
-- custom_components/hdg_boiler/helpers/logging_utils.py: the secrets that the integration has seen
-- at runtime, and how they are taken out of a text. `quote` of urllib with no safe characters, and
-- the hostname that urlparse finds, which is taken not to raise, are parameters. The three forms of
-- a secret, a Python set, are noted in the order in which the code makes them; case and white space
-- are those of Latin-1.
mod Examples
pub mod Patterns
pub mod Payload
pub mod Tokens
pub mod Hidden
pub mod Secrets
pub mod Noted
use mathlib.Core.List.{reverse, foldl, filter}
use hdg_bavaria_homeassistan.Prelude.{
  ℕ, Text, codes, Bool, true, false, not, ◌&&◌, ◌||◌, Option, none, some, List, [], ◌∷◌, ◌++◌,
  length, any, ltb, leb, ◌==◌, text_eq, if◌then◌else◌,
}
use hdg_bavaria_homeassistan.Texts.{strip, contains}
use hdg_bavaria_homeassistan.Enumerations.{casefold}
use hdg_bavaria_homeassistan.Polling.{is_listed}
use hdg_bavaria_homeassistan.Redaction.Patterns.{
  is_alnum, placeholder, compile_secret, mac_pattern, sub_pattern,
}
use hdg_bavaria_homeassistan.Redaction.Payload.{payload_secrets}

-- _MIN_SECRET_LENGTH and _SECRET_SKIP
abbrev min_secret_length : ℕ
min_secret_length = 4

abbrev secret_skip : List Text
secret_skip =
    codes "**redacted**"
    ∷ codes "redacted"
    ∷ codes "unknown"
    ∷ codes "none"
    ∷ codes "null"
    ∷ codes "unavailable"
    ∷ codes "n/a"
    ∷ codes "---"
    ∷ []

-- Is the text long enough to hide, and no ordinary word?
unfoldable pub is_secret : Text → Bool
unfolding casefold is_listed
is_secret text = not (ltb (length text) min_secret_length || is_listed (casefold text) secret_skip)

-- `re.sub(r"[^A-Za-z0-9]+", "_", text)`; the flag says that a run has been written
join_runs : Bool → Text → Text
unfolding is_alnum
join_runs after [] = []
join_runs after (c ∷ s) =
    let rest = join_runs (not (is_alnum c)) s in
    if is_alnum c then c ∷ rest else if after then rest else b'_' ∷ rest

-- `.strip("_")`
drop_underscores : Text → Text
drop_underscores [] = []
drop_underscores (c ∷ s) = let rest = drop_underscores s in if c == b'_' then rest else c ∷ s

pub slugged : Text → Text
unfolding join_runs drop_underscores
slugged text = reverse (drop_underscores (reverse (drop_underscores (join_runs false text))))

-- the secrets noted so far, the keys of `_log_secrets`
abbrev pub Secrets : Type 0
Secrets = List Text

-- `if variant not in _log_secrets`, and the test of `_secret_variants`
pub note_variant : Secrets → Text → Secrets
unfolding is_secret is_listed
note_variant secrets variant =
    if is_secret variant && not (is_listed variant secrets)
    then secrets ++ variant ∷ []
    else secrets

-- `sorted(..., key=len, reverse=True)`
pub insert_by_length : Text → List Text → List Text
insert_by_length s [] = s ∷ []
insert_by_length s (t ∷ ts) =
    let rest = insert_by_length s ts in if leb (length t) (length s) then s ∷ t ∷ ts else t ∷ rest

pub longest_first : List Text → List Text
unfolding insert_by_length
longest_first [] = []
longest_first (s ∷ ss) = insert_by_length s (longest_first ss)

-- `_replace_noted_secrets`
unfoldable pub replace_each : List Text → Text → Text
unfolding sub_pattern compile_secret
replace_each [] text = text
replace_each (secret ∷ secrets) text =
    replace_each secrets (sub_pattern (compile_secret secret) text)

unfoldable pub replace_noted_secrets : Secrets → Text → Text
unfolding replace_each longest_first
replace_noted_secrets secrets = replace_each (longest_first secrets)

module _ (quote : Text → Text) where
  -- `_secret_variants` before its last test
  pub secret_variants : Text → List Text
  unfolding slugged
  secret_variants text = text ∷ quote text ∷ slugged text ∷ []

  -- `note_log_secret` of a str
  unfoldable pub note_log_secret : Secrets → Text → Secrets
  unfolding strip is_secret secret_variants note_variant
  note_log_secret secrets value =
      if is_secret (strip value)
      then foldl note_variant secrets (secret_variants (strip value))
      else secrets

  -- `note_host_secret` of a str; urlparse reads `//` before a host without a scheme
  unfoldable pub note_host_secret : (Text → Option Text) → Secrets → Text → Secrets
  unfolding note_log_secret strip contains
  note_host_secret hostname secrets value =
      let noted = note_log_secret secrets value in
      let candidate = strip value in
      if text_eq candidate []
      then noted
      else elim (hostname
          (if contains candidate (codes "://") then candidate else codes "//" ++ candidate)) [
            | none ↦ noted
            | some host ↦ note_log_secret noted host
          ]

  -- `redact` of a str: the secrets afterwards, and the text
  pub note_payload : Secrets → Text → Secrets
  unfolding note_log_secret payload_secrets
  note_payload secrets text = foldl note_log_secret secrets (payload_secrets text)

  unfoldable pub redact : Secrets → Text → Secrets × Text
  unfolding note_payload replace_noted_secrets sub_pattern mac_pattern
  redact secrets text =
      let noted = note_payload secrets text in
      (noted, sub_pattern mac_pattern (replace_noted_secrets noted text))
