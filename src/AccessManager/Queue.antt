-- ===== src/AccessManager/Queue.antt =====
-- The `asyncio.PriorityQueue` of custom_components/hdg_boiler/helpers/api_access_manager.py: the
-- entries are tuples (priority, counter, request), in the order in which `get` returns them. A
-- request is an object, so an entry holds a reference to it.
use hdg_bavaria_homeassistan.Prelude.{
  ℕ, ◌≡◌, Bool, ◌||◌, List, [], ◌∷◌, arith, ltb, ◌==◌, any, if◌then◌else◌,
}

pub data ApiPriority : Type 0 where
  high medium low : ApiPriority

-- the values that `auto()` gives
pub priority_value : ApiPriority → ℕ
priority_value high = 1
priority_value medium = 2
priority_value low = 3

-- `ApiPriority.__lt__`
priority_lt : ApiPriority → ApiPriority → Bool
unfolding priority_value
priority_lt a b = ltb (priority_value a) (priority_value b)

pub record Entry : Type 0 where
  pub priority : ApiPriority
  pub order : ℕ
  pub request : ℕ

-- Tuples compare by the first place where they differ; two entries never share a counter.
unfoldable pub entry_lt : Entry → Entry → Bool
unfolding priority_lt
entry_lt a b =
    if priority_value a.priority == priority_value b.priority
    then ltb a.order b.order
    else priority_lt a.priority b.priority

unfoldable pub insert_entry : Entry → List Entry → List Entry
unfolding entry_lt
insert_entry e [] = e ∷ []
insert_entry e (f ∷ rest) = if entry_lt e f then e ∷ f ∷ rest else f ∷ insert_entry e rest

-- Is some entry for this request in the queue?
abbrev pub is_queued : ℕ → List Entry → Bool
is_queued r = any (λ e. e.request == r)

pub is_queued-insert_entry :
    (r : ℕ) (e : Entry) (q : List Entry)
    → is_queued r (insert_entry e q) ≡ ((e.request == r) || is_queued r q)
unfolding insert_entry
is_queued-insert_entry r e [] = ground arith
is_queued-insert_entry r e (f ∷ rest) = ground (arith, is_queued-insert_entry r e rest)
