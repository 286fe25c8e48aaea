-- ===== src/Setting/Meanwhile.antt =====
-- What may happen between a choice and its display without hiding it:
-- custom_components/hdg_boiler/coordinator.py with
-- custom_components/hdg_boiler/helpers/optimistic_manager.py
use hdg_bavaria_homeassistan.Prelude.{
  ℕ, ◌+◌, ◌<◌, ◌≤◌, ◌≡◌, refl, sym, ltb, text_eq_refl, Text, true, false, Option, none, some, List,
  [], ◌∷◌, arith, text_eq, text_eq_iff, ◌∙◌,
}
use hdg_bavaria_homeassistan.Prelude.Dict.{
  lookup, IsDict, lookup-insert, lookup-without, insert-IsDict, without-IsDict,
}
use hdg_bavaria_homeassistan.Optimistic.{
  Held, get_held, get_entry, cleanup_held, set_held, clear_held, is_fresh, grace_or_default,
  optimistic_grace_period,
}
use hdg_bavaria_homeassistan.Optimistic.Expiry.{lookup-cleanup_held, get-set_held}
use hdg_bavaria_homeassistan.Optimistic.Refinement.{
  shown, get_held-shown, get_call, cleanup_call, call_store, call_store-IsDict,
}
use hdg_bavaria_homeassistan.Setting.{
  Setting, SetTask, SetOutcome, returned, raised, cancelled, Timer, end_set, book_outcome,
  update_node, async_set_node_value, fire, fire_found, find_timer, stop_timers, roll_back,
}
use hdg_bavaria_homeassistan.Setting.Debounce.{TimerEvent, call, clock, shutdown, timer_step}

-- A poll stores a value, something happens to the timers, a SET ends, or the optimistic values are
-- read or cleaned up at a time.
pub data Meanwhile (V : Type 0) : Type 0 where
  polled : Text → V → Meanwhile V
  timers : TimerEvent → Meanwhile V
  ended : SetTask → Option V → SetOutcome → Meanwhile V
  read : ℕ → Text → Meanwhile V
  cleaned : ℕ → Meanwhile V

module _ {V : Type 0} (of_text : Text → V) where
  happen : Meanwhile V → Setting V → Setting V
  unfolding timer_step end_set update_node get_held cleanup_held
  happen (polled k v) s = update_node k v s
  happen (timers e) s = timer_step e s
  happen (ended t old outcome) s = end_set of_text t old outcome s
  happen (read now k) s = record s { optimistic = (get_held now k s.optimistic).1 }
  happen (cleaned now) s = record s { optimistic = cleanup_held now s.optimistic }

  unfoldable pub happen_all : List (Meanwhile V) → Setting V → Setting V
  unfolding happen
  happen_all [] s = s
  happen_all (e ∷ es) s = happen_all es (happen e s)

-- No call and no end of a SET is for this node, and nothing is read or cleaned up after this time.
abbrev Spares : {V : Type 0} → Text → ℕ → Meanwhile V → Type 0
Spares node later (polled k v) = Unit
Spares node later (timers (call now k v)) = text_eq k node ≡ false
Spares node later (timers (clock i)) = Unit
Spares node later (timers shutdown) = Unit
Spares node later (ended t old outcome) = text_eq t.node_id node ≡ false
Spares node later (read now k) = now ≤ later
Spares node later (cleaned now) = now ≤ later

abbrev pub AllSpare : {V : Type 0} → Text → ℕ → List (Meanwhile V) → Type 0
AllSpare node later [] = Unit
AllSpare node later (e ∷ es) = Spares node later e × AllSpare node later es

module _ {V : Type 0} (of_text : Text → V) (node : Text) (later : ℕ) (value : Option Text) where
  -- The optimistic value of the node at that time.
  pub record Keeps (s : Setting V) : Type 0 where
    pub is_dict : IsDict s.optimistic
    pub shows : shown later (lookup node s.optimistic) ≡ value

  fire-optimistic : (o : Option Timer) (s : Setting V) → (fire_found o s).optimistic ≡ s.optimistic
  unfolding fire_found
  fire-optimistic none s = refl
  fire-optimistic (some t) s = refl

  book-optimistic :
      (t : SetTask) (old : Option V) (outcome : SetOutcome) (s : Setting V)
      → (book_outcome of_text t old outcome s).optimistic ≡ s.optimistic
  unfolding book_outcome roll_back update_node
  book-optimistic t old (returned true) s = refl
  book-optimistic t old (returned false) s = refl
  book-optimistic t none raised s = refl
  book-optimistic t (some v) raised s = refl
  book-optimistic t old cancelled s = refl

  same-Keeps : (s t : Setting V) → t.optimistic ≡ s.optimistic → Keeps s → Keeps t
  same-Keeps s t e h = record { is_dict = rw (e) h.is_dict; shows = rw (e) h.shows }

  happen-Keeps :
      (e : Meanwhile V) (s : Setting V) → Spares node later e → Keeps s → Keeps (happen of_text e s)
  unfolding happen timer_step update_node fire stop_timers async_set_node_value set_held end_set
      clear_held is_fresh get_held get_entry call_store
  happen-Keeps (polled k v) s spare h = record { is_dict = h.is_dict; shows = h.shows }
  happen-Keeps (timers (call now k v)) s spare h =
      let entry : Held = record { value = v; set_time = now; grace = grace_or_default none } in
      record {
        is_dict = insert-IsDict k entry s.optimistic h.is_dict;
        shows = rw (lookup-insert k node entry s.optimistic, spare) h.shows;
      }
  happen-Keeps (timers (clock i)) s spare h =
      same-Keeps s (fire i s) (fire-optimistic (find_timer i s.live) s) h
  happen-Keeps (timers shutdown) s spare h = record { is_dict = h.is_dict; shows = h.shows }
  happen-Keeps (ended t old outcome) s spare h =
      let n = book_outcome of_text t old outcome s in
      let booked = same-Keeps s n (book-optimistic t old outcome s) h in
      record {
        is_dict = without-IsDict t.node_id n.optimistic booked.is_dict;
        shows = rw (lookup-without t.node_id node n.optimistic, spare) booked.shows;
      }
  happen-Keeps (read now k) s spare h = record {
    is_dict = call_store-IsDict now (get_call k) s.optimistic h.is_dict;
    shows = ground (arith, h.shows, spare, lookup-without k node s.optimistic, text_eq_iff k node);
  }
  happen-Keeps (cleaned now) s spare h = record {
    is_dict = call_store-IsDict now cleanup_call s.optimistic h.is_dict;
    shows = ground (arith, h.shows, spare, lookup-cleanup_held now node s.optimistic h.is_dict);
  }

  pub happen_all-Keeps :
      (es : List (Meanwhile V)) (s : Setting V)
      → AllSpare node later es
      → Keeps s
      → Keeps (happen_all of_text es s)
  unfolding happen_all
  happen_all-Keeps [] s spare h = h
  happen_all-Keeps (e ∷ es) s spare h =
      happen_all-Keeps es (happen of_text e s) spare.1 (happen-Keeps e s spare.0 h)

-- Directly after a call, the value of the call is shown for its grace period.
pub set-Keeps :
    {V : Type 0} (of_text : Text → V) (now later : ℕ) (node value : Text) (s : Setting V)
    → IsDict s.optimistic
    → later < now + optimistic_grace_period
    → Keeps of_text node later (some value) (async_set_node_value now node value s)
unfolding async_set_node_value grace_or_default set_held
set-Keeps of_text now later node value s dict fresh =
    let store = set_held now node value none s.optimistic in
    let entry : Held = record { value = value; set_time = now; grace = optimistic_grace_period } in
    let in_time : ltb later (now + grace_or_default none) ≡ true = ground (arith, fresh) in
    record {
      is_dict = insert-IsDict node entry s.optimistic dict;
      shows =
          sym (get_held-shown later node store)
          ∙ (get-set_held now later node node value none s.optimistic
              ∙ rw (text_eq_refl node) (rw (in_time) refl));
    }
