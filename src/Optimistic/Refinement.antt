-- ===== src/Optimistic/Refinement.antt =====
-- The optimistic values as a client sees them: a function of time that forgets nothing but what is
-- cleared or set again. custom_components/hdg_boiler/helpers/optimistic_manager.py
use hdg_bavaria_homeassistan.Prelude.{
  ℕ, ◌≤◌, ◌≡◌, refl, Text, Option, none, some, List, [], ◌∷◌, arith, text_eq_iff, if◌then◌else◌,
  ◌∙◌,
}
use hdg_bavaria_homeassistan.Prelude.Mapping.{put, erase, empty}
use hdg_bavaria_homeassistan.Prelude.Dict.{
  lookup, lookup-insert, lookup-without, IsDict, insert-IsDict, without, without-IsDict,
}
use hdg_bavaria_homeassistan.Optimistic.{
  Held, Store, grace_or_default, set_held, is_fresh, get_held, get_entry, clear_held, remove_all,
  expired_ids, cleanup_held,
}
use hdg_bavaria_homeassistan.Optimistic.Expiry.{lookup-cleanup_held}

-- A call of the manager.
pub data Call : Type 0 where
  set_call : Text → Text → Option ℕ → Call
  get_call clear_call : Text → Call
  cleanup_call : Call

-- The store after a call at this time, and the answer to the caller.
unfoldable pub call_store : ℕ → Call → Store → Option Text × Store
call_store now (set_call n v g) s = (none, set_held now n v g s)
call_store now (get_call n) s = get_held now n s
call_store now (clear_call n) s = (none, clear_held n s)
call_store now cleanup_call s = (none, cleanup_held now s)

pub answers : List (ℕ × Call) → Store → List (Option Text)
answers [] s = []
answers ((now, c) ∷ calls) s = let (a, t) = call_store now c s in a ∷ answers calls t

-- What the manager promises: the value last set, if it was not cleared since and its grace period
-- has not passed.
abbrev Promise : Type 0
Promise = Text → Option Held

abbrev pub shown : ℕ → Option Held → Option Text
shown now none = none
shown now (some e) = if is_fresh now e then some e.value else none

promise_call : ℕ → Call → Promise → Option Text × Promise
promise_call now (set_call n v g) p =
    (none, put n (record { value = v; set_time = now; grace = grace_or_default g }) p)
promise_call now (get_call n) p = (shown now (p n), p)
promise_call now (clear_call n) p = (none, erase n p)
promise_call now cleanup_call p = (none, p)

pub promised : List (ℕ × Call) → Promise → List (Option Text)
promised [] p = []
promised ((now, c) ∷ calls) p = let (a, q) = promise_call now c p in a ∷ promised calls q

-- The calls are made in the order of time, from `start` on.
abbrev IsInOrder : ℕ → List (ℕ × Call) → Type 0
IsInOrder start [] = Unit
IsInOrder start ((now, c) ∷ calls) = (start ≤ now) × IsInOrder now calls

-- From `start` on, the store shows what the promise says.
abbrev Shows : ℕ → Store → Promise → Type 0
Shows start s p = (k : Text) (now : ℕ) → start ≤ now → shown now (lookup k s) ≡ shown now (p k)

remove_all-IsDict : (ids : List Text) (s : Store) → IsDict s → IsDict (remove_all ids s)
unfolding remove_all
remove_all-IsDict [] s d = d
remove_all-IsDict (i ∷ ids) s d = remove_all-IsDict ids (without i s) (without-IsDict i s d)

pub call_store-IsDict : (now : ℕ) (c : Call) (s : Store) → IsDict s → IsDict (call_store now c s).1
unfolding call_store set_held get_held get_entry clear_held cleanup_held
call_store-IsDict now (set_call n v g) s d =
    insert-IsDict n (record { value = v; set_time = now; grace = grace_or_default g }) s d
call_store-IsDict now (get_call n) s d = ground (arith, without-IsDict n s d)
call_store-IsDict now (clear_call n) s d = without-IsDict n s d
call_store-IsDict now cleanup_call s d = remove_all-IsDict (expired_ids now s) s d

Shows-set :
    (now : ℕ) (n v : Text) (g : Option ℕ) (s : Store) (p : Promise)
    → Shows now s p
    → Shows now
        (set_held now n v g s)
        (put n (record { value = v; set_time = now; grace = grace_or_default g }) p)
unfolding set_held
Shows-set now n v g s p shows k later le = ground (
  arith,
  lookup-insert n k (record { value = v; set_time = now; grace = grace_or_default g }) s,
  shows k later le,
)

Shows-get :
    (now : ℕ) (n : Text) (s : Store) (p : Promise)
    → Shows now s p
    → Shows now (get_held now n s).1 p
unfolding get_held get_entry is_fresh
Shows-get now n s p shows k later le =
    ground (arith, lookup-without n k s, text_eq_iff n k, shows k later le)

Shows-clear :
    (now : ℕ) (n : Text) (s : Store) (p : Promise)
    → Shows now s p
    → Shows now (clear_held n s) (erase n p)
unfolding clear_held
Shows-clear now n s p shows k later le = ground (arith, lookup-without n k s, shows k later le)

Shows-cleanup :
    (now : ℕ) (s : Store) (p : Promise)
    → IsDict s
    → Shows now s p
    → Shows now (cleanup_held now s) p
unfolding is_fresh
Shows-cleanup now s p d shows k later le =
    ground (arith, lookup-cleanup_held now k s d, shows k later le)

Shows-later :
    (start now : ℕ) (s : Store) (p : Promise) → start ≤ now → Shows start s p → Shows now s p
Shows-later start now s p le shows k later at = shows k later (omega arith)

answer_shown :
    (now : ℕ) (n : Text) (s : Store) (o : Option Held) → (get_entry now n o s).0 ≡ shown now o
unfolding get_entry
answer_shown now n s none = refl
answer_shown now n s (some e) = ground arith

-- A reading shows the entry that is stored.
pub get_held-shown :
    (now : ℕ) (n : Text) (s : Store) → (get_held now n s).0 ≡ shown now (lookup n s)
unfolding get_held
get_held-shown now n s = answer_shown now n s (lookup n s)

-- A call is answered as promised, and what it leaves shows what the promise leaves.
call_refines :
    (now : ℕ) (c : Call) (s : Store) (p : Promise)
    → IsDict s
    → Shows now s p
    → ((call_store now c s).0 ≡ (promise_call now c p).0)
      × Shows now (call_store now c s).1 (promise_call now c p).1
unfolding call_store promise_call
call_refines now (set_call n v g) s p d shows = (refl, Shows-set now n v g s p shows)
call_refines now (get_call n) s p d shows =
    (get_held-shown now n s ∙ shows n now (omega arith), Shows-get now n s p shows)
call_refines now (clear_call n) s p d shows = (refl, Shows-clear now n s p shows)
call_refines now cleanup_call s p d shows = (refl, Shows-cleanup now s p d shows)

answers_refine :
    (start : ℕ) (calls : List (ℕ × Call)) (s : Store) (p : Promise)
    → IsInOrder start calls
    → IsDict s
    → Shows start s p
    → answers calls s ≡ promised calls p
unfolding answers promised
answers_refine start [] s p order d shows = refl
answers_refine start ((now, c) ∷ calls) s p (le, order) d shows =
    let (same, kept) = call_refines now c s p d (Shows-later start now s p le shows) in
    rw
      (
        same,
        answers_refine now calls (call_store now c s).1 (promise_call now c p).1 order
            (call_store-IsDict now c s d) kept,
      )
      refl

-- Calls of the optimistic manager that are made in the order of time, from the empty store on,
-- are answered as the abstract promise answers them: a reading gives the value last set for the
-- node, if that was not cleared since and its grace period has not passed. The removal of expired
-- entries, by a reading or a cleanup, is never seen.
pub store_refines_promise :
    (calls : List (ℕ × Call)) → IsInOrder 0 calls → answers calls [] ≡ promised calls empty
unfolding lookup
store_refines_promise calls order = answers_refine 0 calls [] empty order tt (λ k now le. refl)
