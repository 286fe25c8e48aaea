-- ===== src/Optimistic/Expiry.antt =====
-- When an optimistic value shows, and what a cleanup changes:
-- custom_components/hdg_boiler/helpers/optimistic_manager.py
use hdg_bavaria_homeassistan.Prelude.{
  ℕ, ◌+◌, ◌≤◌, Text, ◌≡◌, refl, Bool, false, not, Option, none, some, List, [], ◌∷◌, ltb, any, ◌∙◌,
  if◌then◌else◌, arith, text_eq, text_eq_iff,
}
use hdg_bavaria_homeassistan.Prelude.Dict.{lookup, without, lookup-insert, lookup-without, IsDict}
use hdg_bavaria_homeassistan.Optimistic.{
  Held, Store, grace_or_default, set_held, is_fresh, get_held, expired_ids, remove_all,
  cleanup_held, is_recently_set,
}

-- After a value was set for a node, reading that node gives the value before its grace period has
-- passed and nothing from then on; reading another node gives what it gave before.
pub get-set_held :
    (now later : ℕ) (n k : Text) (v : Text) (g : Option ℕ) (s : Store)
    → (get_held later k (set_held now n v g s)).0 ≡ (
        if text_eq n k
        then (if ltb later (now + grace_or_default g) then some v else none)
        else (get_held later k s).0)
unfolding get_held set_held
get-set_held now later n k v g s =
    ground (
      arith,
      lookup-insert n k (record { value = v; set_time = now; grace = grace_or_default g }) s,
    )

listed : Text → List Text → Bool
listed k = any (λ i. text_eq i k)

lookup-remove_all :
    (k : Text) (ids : List Text) (s : Store)
    → lookup k (remove_all ids s) ≡ (if listed k ids then none else lookup k s)
unfolding remove_all listed
lookup-remove_all k [] s = refl
lookup-remove_all k (i ∷ ids) s =
    ground (arith, lookup-remove_all k ids (without i s), lookup-without i k s)

-- In a dict, a key is listed exactly if its own entry has expired.
abbrev expired_entry : ℕ → Option Held → Bool
expired_entry now none = false
expired_entry now (some e) = not (is_fresh now e)

listed-expired_ids :
    (now : ℕ) (k : Text) (s : Store)
    → IsDict s
    → listed k (expired_ids now s) ≡ expired_entry now (lookup k s)
unfolding listed expired_ids lookup
listed-expired_ids now k [] h = refl
listed-expired_ids now k ((j, e) ∷ s) h =
    ground (arith, listed-expired_ids now k s h.1, text_eq_iff j k)

-- What `cleanup` leaves of an entry.
pub lookup-cleanup_held :
    (now : ℕ) (k : Text) (s : Store)
    → IsDict s
    → lookup k (cleanup_held now s) ≡ (if expired_entry now (lookup k s) then none else lookup k s)
unfolding cleanup_held
lookup-cleanup_held now k s h =
    lookup-remove_all k (expired_ids now s) s ∙ (rw (listed-expired_ids now k s h))

-- Where each node has one entry, a cleanup is invisible to readers: any later reading of any node
-- gives what it would give without the cleanup.
get-cleanup_held :
    (now later : ℕ) (k : Text) (s : Store)
    → IsDict s
    → now ≤ later
    → (get_held later k (cleanup_held now s)).0 ≡ (get_held later k s).0
unfolding get_held
get-cleanup_held now later k s h le = ground (arith, lookup-cleanup_held now k s h)

-- Every entry is kept at least this long.
abbrev KeptFor : ℕ → Option Held → Type 0
KeptFor window none = Unit
KeptFor window (some e) = window ≤ e.grace

-- Where each node has one entry and the entry of this node is kept for at least the window,
-- neither a cleanup nor a reading of any node changes whether the node counts as recently set
-- later.
is_recently_set_survives :
    (now later window : ℕ) (k j : Text) (s : Store)
    → IsDict s
    → now ≤ later
    → KeptFor window (lookup k s)
    → (is_recently_set later k window (cleanup_held now s) ≡ is_recently_set later k window s)
      × (is_recently_set later k window (get_held now j s).1 ≡ is_recently_set later k window s)
unfolding is_recently_set get_held
is_recently_set_survives now later window k j s h le kept = (
  ground (arith, lookup-cleanup_held now k s h),
  ground (arith, lookup-without j k s, text_eq_iff j k),
)
