-- ===== src/Prelude/Dict.antt =====
-- A Python dict keyed by texts, in insertion order.
use mathlib.Core.Path.{◌≡◌, refl}
use mathlib.Core.Bool.{Bool, true, ◌&&◌}
use mathlib.Core.Option.{Option, none, some}
use mathlib.Core.List.{List, [], ◌∷◌}
use native.Mathlib.Omega.{arith}
use hdg_bavaria_homeassistan.Prelude.Tests.{Text, text_eq, text_eq_iff, if◌then◌else◌}

abbrev pub Dict {ℓ} : Type ℓ → Type ℓ
Dict V = List (Text × V)

module _ {ℓ} {V : Type ℓ} where
  -- `d.get(k)`
  unfoldable pub lookup : Text → Dict V → Option V
  lookup k [] = none
  lookup k ((j, v) ∷ d) = if text_eq j k then some v else lookup k d

  -- `d[k] = v`
  unfoldable pub insert : Text → V → Dict V → Dict V
  insert k v [] = (k, v) ∷ []
  insert k v ((j, w) ∷ d) = if text_eq j k then (j, v) ∷ d else (j, w) ∷ insert k v d

  -- `d.pop(k, None)`
  pub without : Text → Dict V → Dict V
  without k [] = []
  without k ((j, v) ∷ d) = let rest = without k d in if text_eq j k then rest else (j, v) ∷ rest

  -- Each key stands in the list once.
  abbrev pub IsDict : Dict V → Type ℓ
  IsDict [] = Unit
  IsDict ((k, v) ∷ d) = (lookup k d ≡ none) × IsDict d

  pub lookup-insert :
      (k j : Text) (v : V) (d : Dict V)
      → lookup j (insert k v d) ≡ (if text_eq k j then some v else lookup j d)
  unfolding lookup insert
  lookup-insert k j v [] = refl
  lookup-insert k j v ((i, w) ∷ d) =
      ground (arith, text_eq_iff k j, text_eq_iff i k, text_eq_iff i j, lookup-insert k j v d)

  pub lookup-without :
      (k j : Text) (d : Dict V)
      → lookup j (without k d) ≡ (if text_eq k j then none else lookup j d)
  unfolding lookup without
  lookup-without k j [] = ground arith
  lookup-without k j ((i, w) ∷ d) =
      ground (arith, text_eq_iff k j, text_eq_iff i k, text_eq_iff i j, lookup-without k j d)

  pub insert-IsDict : (k : Text) (v : V) (d : Dict V) → IsDict d → IsDict (insert k v d)
  unfolding insert lookup
  insert-IsDict k v [] h = (refl, tt)
  insert-IsDict k v ((j, w) ∷ d) h =
      ground
        (arith, lookup-insert k j v d, text_eq_iff k j, text_eq_iff j k, insert-IsDict k v d h.1)

  pub without-IsDict : (k : Text) (d : Dict V) → IsDict d → IsDict (without k d)
  unfolding without lookup
  without-IsDict k [] h = tt
  without-IsDict k ((j, w) ∷ d) h =
      ground (arith, lookup-without k j d, text_eq_iff k j, text_eq_iff j k, without-IsDict k d h.1)

module _ {ℓ} {V : Type ℓ} (p : Text → V → Bool) where
  unfoldable pub all_items : Dict V → Bool
  all_items [] = true
  all_items ((k, v) ∷ d) = p k v && all_items d

  pub insert-all_items :
      (k : Text) (v : V) (d : Dict V)
      → p k v ≡ true
      → all_items d ≡ true
      → all_items (insert k v d) ≡ true
  unfolding all_items insert
  insert-all_items k v [] h hs = ground arith
  insert-all_items k v ((j, w) ∷ d) h hs = ground (arith, insert-all_items k v d h, text_eq_iff j k)

  pub all_items-lookup :
      (k : Text) (v : V) (d : Dict V) → all_items d ≡ true → lookup k d ≡ some v → p k v ≡ true
  unfolding all_items lookup
  all_items-lookup k v [] h e = absurd (cc)
  all_items-lookup k v ((j, w) ∷ d) h e = ground (arith, all_items-lookup k v d, text_eq_iff j k)
