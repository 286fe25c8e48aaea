-- ===== src/Entities/Rounded.antt =====
-- What a number sends: custom_components/hdg_boiler/number.py
use native.Mathlib.Nat.{div-add-mod', lt_of_mul-lt-mul_right}
use native.Mathlib.Omega.{mod_fact}
use hdg_bavaria_homeassistan.Prelude.{
  ℕ, suc, ◌+◌, ◌-◌, ◌*◌, ◌/◌, ◌<◌, ◌≤◌, ◌≡◌, refl, ap, ◌∙◌, Text, true, some, List, arith,
}
use hdg_bavaria_homeassistan.Models.{ℤ, pos, negsuc, SensorDefinition}
use hdg_bavaria_homeassistan.Integers.{
  pos_part, neg_part, ◌+ℤ◌, ◌≤ℤ◌, times, times_parts, int_text, +ℤ_parts, eq_of_parts,
}
use hdg_bavaria_homeassistan.Setting.{Setting, async_set_node_value}
use hdg_bavaria_homeassistan.Setting.Meanwhile.{
  Meanwhile, happen_all, AllSpare, happen_all-Keeps, set-Keeps,
}
use hdg_bavaria_homeassistan.Optimistic.{optimistic_grace_period}
use hdg_bavaria_homeassistan.Optimistic.Refinement.{get_held-shown}
use hdg_bavaria_homeassistan.Prelude.Dict.{IsDict}
use hdg_bavaria_homeassistan.Validation.{finite, one, ok, Checked}
use hdg_bavaria_homeassistan.Parsers.{Value, PythonTexts, int_value, text_value}
use hdg_bavaria_homeassistan.Entities.{
  entity_node, floor_units, round_half_up, floor_half, steps_by_one, async_set_native_value,
  set_when, rounded_text, optimistic_or_number, or_number, shown_number, available,
  number_native_value,
}

-- `z` times `k` is at most `v`, and less than `k` below it.
abbrev IsFloor : ℤ → ℕ → ℤ → Type 0
IsFloor z k v =
    (times z k ≤ℤ v) × (pos_part v + neg_part (times z k) < pos_part (times z k) + neg_part v + k)

pos-IsFloor : (v k : ℕ) → IsFloor (pos (v / suc k)) (suc k) (pos v)
pos-IsFloor v k =
    let (p, n) = times_parts (pos (v / suc k)) (suc k) in
    (
      omega (arith, p, n, div-add-mod' v (suc k), mod_fact v k),
      omega (arith, p, n, div-add-mod' v (suc k), mod_fact v k),
    )

negsuc-IsFloor : (v k : ℕ) → IsFloor (negsuc (v / suc k)) (suc k) (negsuc v)
negsuc-IsFloor v k =
    let (p, n) = times_parts (negsuc (v / suc k)) (suc k) in
    let split : suc (v / suc k) * suc k ≡ v / suc k * suc k + suc k = grind arith in
    (
      omega (arith, p, n, split, div-add-mod' v (suc k), mod_fact v k),
      omega (arith, p, n, split, div-add-mod' v (suc k), mod_fact v k),
    )

floor_units-IsFloor : (e : ℕ) (v : ℤ) → IsFloor (floor_units (suc e) v) (one (suc e)) v
unfolding floor_units
floor_units-IsFloor e (pos v) =
    let k_is : one (suc e) ≡ suc (1_000_000_000 * suc e - 1) = omega arith in
    rw (k_is) (pos-IsFloor v (1_000_000_000 * suc e - 1))
floor_units-IsFloor e (negsuc v) =
    let k_is : one (suc e) ≡ suc (1_000_000_000 * suc e - 1) = omega arith in
    rw (k_is) (negsuc-IsFloor v (1_000_000_000 * suc e - 1))

-- One half, in units.
abbrev pub half : ℕ → ℤ
half epsilon = pos (500_000_000 * epsilon)

cancel_lt : (a b k : ℕ) → a * k < b * k + k → a ≤ b
cancel_lt a b k h =
    let scaled : a * k < suc b * k = grind (arith, h) in
    omega (arith, lt_of_mul-lt-mul_right k scaled)

-- A number that is at most `v` is at most the floor of `v`.
floor_le :
    (z y : ℤ) (k : ℕ) (v : ℤ)
    → times z k ≤ℤ v
    → pos_part v + neg_part (times y k) < pos_part (times y k) + neg_part v + k
    → pos_part z + neg_part y ≤ pos_part y + neg_part z
floor_le z y k v low high =
    let (p, n) = times_parts z k in
    let (q, m) = times_parts y k in
    cancel_lt (pos_part z + neg_part y) (pos_part y + neg_part z) k
      (grind (arith, p, n, q, m, low, high))

floor_unique : (z y : ℤ) (k : ℕ) (v : ℤ) → IsFloor z k v → IsFloor y k v → z ≡ y
floor_unique z y k v a b =
    eq_of_parts z y (omega (arith, floor_le z y k v a.0 b.1, floor_le y z k v b.0 a.1))

-- The floor of a whole number and a half.
half-IsFloor : (e : ℕ) (z : ℤ) → IsFloor z (one (suc e)) (times z (one (suc e)) +ℤ half (suc e))
half-IsFloor e z =
    let sum = +ℤ_parts (times z (one (suc e))) (half (suc e)) in
    (omega (arith, sum), omega (arith, sum))

module _ {M : Type 0} (python : PythonTexts M) (e : ℕ) where
  -- A sum with one half that is exact is rounded to its floor.
  round_half_up_lem :
      (z v : ℤ)
      → IsFloor z (one (suc e)) (v +ℤ half (suc e))
      → python.plus_half v ≡ v +ℤ half (suc e)
      → round_half_up python (suc e) v ≡ z
  unfolding round_half_up
  round_half_up_lem z v floor exact =
      ap (floor_units (suc e)) exact
      ∙ floor_unique (floor_units (suc e) (v +ℤ half (suc e))) z (one (suc e)) (v +ℤ half (suc e))
          (floor_units-IsFloor e (v +ℤ half (suc e))) floor

  -- A text that reads as a whole number is shown as that number, if its sum with one half is exact.
  shown_whole :
      (timezone : Text) (z : ℤ) (text : Text) (rest : Checked (Value M))
      → python.float_of text ≡ ok (finite (times z (one (suc e))))
      → python.plus_half (times z (one (suc e))) ≡ times z (one (suc e)) +ℤ half (suc e)
      → optimistic_or_number python (suc e) timezone true (some text) rest ≡ ok (int_value z)
  unfolding optimistic_or_number or_number shown_number floor_half
  shown_whole timezone z text rest reads exact =
      rw (reads, round_half_up_lem z (times z (one (suc e))) (half-IsFloor e z) exact) refl

-- What a call with a value sends, where the sum with one half is exact.
sends_floor :
    {M : Type 0} (python : PythonTexts M) (e now : ℕ) (timezone : Text) (v z : ℤ)
    (d : SensorDefinition) (s : Setting (Value M))
    → steps_by_one d.setter_step ≡ true
    → IsFloor z (one (suc e)) (v +ℤ half (suc e))
    → python.plus_half v ≡ v +ℤ half (suc e)
    → async_set_native_value python (suc e) timezone now (finite v) d s
      ≡ (ok tt, async_set_node_value now (entity_node d) (int_text z) s)
unfolding async_set_native_value set_when rounded_text floor_half
sends_floor python e now timezone v z d s by_one floor exact =
    rw (by_one, round_half_up_lem python e z v floor exact) refl

-- A number entity whose step is one sends, for a finite value whose sum with one half is exact as
-- a float, the decimal text of the greatest whole number that is at most that sum; and it shows
-- this number at any time before the grace period has passed, if the entity is then available and
-- the last update succeeded, whatever happens in between of these: polled values, calls and ends
-- of SETs for other nodes, timers that run, a stop of the timers, and readings and cleanups of
-- the optimistic values. The sum of the whole number with one half is exact too, float reads its
-- text as that number, the optimistic store has each key once, and nothing is read or cleaned up
-- after the time of the display.
pub set_number_rounds :
    {M : Type 0} (python : PythonTexts M) (e now later : ℕ) (timezone : Text) (v z : ℤ)
    (d : SensorDefinition) (events : List (Meanwhile (Value M))) (s : Setting (Value M))
    → steps_by_one d.setter_step ≡ true
    → IsFloor z (one (suc e)) (v +ℤ half (suc e))
    → python.plus_half v ≡ v +ℤ half (suc e)
    → python.plus_half (times z (one (suc e))) ≡ times z (one (suc e)) +ℤ half (suc e)
    → python.float_of (int_text z) ≡ ok (finite (times z (one (suc e))))
    → IsDict s.optimistic
    → AllSpare (entity_node d) later events
    → later < now + optimistic_grace_period
    → available true d (
        happen_all text_value events
          (async_set_native_value python (suc e) timezone now (finite v) d s).1)
      ≡ true
    → (async_set_native_value python (suc e) timezone now (finite v) d s
        ≡ (ok tt, async_set_node_value now (entity_node d) (int_text z) s))
      × (number_native_value python (suc e) timezone true later d (
            happen_all text_value events
              (async_set_native_value python (suc e) timezone now (finite v) d s).1)
          ≡ ok (int_value z))
unfolding number_native_value
set_number_rounds python e now later timezone v z d events s by_one floor exact whole reads dict
      spare fresh there =
    let node = entity_node d in
    let sent = sends_floor python e now timezone v z d s by_one floor exact in
    let kept =
      happen_all-Keeps text_value node later (some (int_text z)) events
        (async_set_native_value python (suc e) timezone now (finite v) d s).1 spare
        (rw (sent) (set-Keeps text_value now later node (int_text z) s dict fresh)) in
    let after =
      happen_all text_value events
        (async_set_native_value python (suc e) timezone now (finite v) d s).1 in
    (
      sent,
      rw (there, by_one, get_held-shown later node after.optimistic, kept.shows)
          (shown_whole python e timezone z (int_text z) _ reads whole),
    )
