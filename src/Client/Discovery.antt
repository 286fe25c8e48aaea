-- ===== src/Client/Discovery.antt =====
-- The discovery of the boiler's protocol:
-- custom_components/hdg_boiler/api/client.py
use hdg_bavaria_homeassistan.Prelude.{
  ℕ, zero, suc, ◌+◌, ◌≤◌, ◌≡◌, ◌⊎◌, inl, inr, Bool-cases, refl, Text, true, false, not, ◌&&◌, all,
  Option, none, some, List, arith, ap, ◌∙◌,
}
use hdg_bavaria_homeassistan.Json.{
  Json, array, null, boolean, number, text, object, Items, nil, cons, is_node, node_items,
}
use hdg_bavaria_homeassistan.Protocol.{v1, v2, generate_read_payload}
use hdg_bavaria_homeassistan.Client.{
  ApiError, Reply, Client, Result, ok, err, parse_reply, is_not_an_array, node_list, after_reply,
  async_get_nodes_data,
}

Result-cases : (r : Result Json) → ((e : ApiError) × (r ≡ err e)) ⊎ ((j : Json) × (r ≡ ok j))
Result-cases (err e) = inl (e, refl)
Result-cases (ok j) = inr (j, refl)

module _ (send : ℕ → Text → Reply) where
  -- It has ended, after one request or two.
  abbrev pub HasEnded : Client → Option (Result (List Json) × Client) → Type 0
  HasEnded c none = ⊥
  HasEnded c (some (r, d)) = (c.sent + 1 ≤ d.sent) × (d.sent ≤ c.sent + 2)

  once_discovered :
      (fuel : ℕ) (ids : List Text) (c : Client)
      → c.protocol_auto_discovered ≡ true
      → (r : Result (List Json)) × (async_get_nodes_data send (suc fuel) ids c
          ≡ some (r, record c { sent = c.sent + 1; protocol_auto_discovered = true }))
  unfolding async_get_nodes_data
  once_discovered fuel ids c found =
      elim (Result-cases (parse_reply (send c.sent (generate_read_payload c.protocol ids)))) [
        | inl (e, failed) ↦ (err e, ground arith)
        | inr (j, read) ↦ (node_list j, ground arith)
      ]

  step_of :
      (fuel : ℕ) (ids : List Text) (c : Client) (j : Json)
      → parse_reply (send c.sent (generate_read_payload c.protocol ids)) ≡ ok j
      → async_get_nodes_data send (suc fuel) ids c
        ≡ after_reply
            (ok j)
            (record c { sent = c.sent + 1 })
            (async_get_nodes_data send fuel ids
              (record { protocol = v1; protocol_auto_discovered = true; sent = c.sent + 1 }))
  step_of fuel ids c j e =
      unfold async_get_nodes_data in
      ap
        (λ r.
          after_reply r (record c { sent = c.sent + 1 })
            (async_get_nodes_data send fuel ids
              (record { protocol = v1; protocol_auto_discovered = true; sent = c.sent + 1 })))
        e

  -- Reading nodes ends, with fuel for two calls or more, for every boiler, and sends one request
  -- or two.
  pub get_nodes_ends :
      (fuel : ℕ) (ids : List Text) (c : Client)
      → HasEnded c (async_get_nodes_data send (suc (suc fuel)) ids c)
  unfolding async_get_nodes_data
  get_nodes_ends fuel ids c =
      let (r, e) =
        once_discovered fuel ids
          (record { protocol = v1; protocol_auto_discovered = true; sent = c.sent + 1 }) refl in
      ground (arith, e)

  -- Once the protocol has been discovered, a reading that ends keeps the protocol and the
  -- discovery, and sends exactly one request.
  discovery_is_final :
      (fuel : ℕ) (ids : List Text) (c d : Client) (r : Result (List Json))
      → async_get_nodes_data send fuel ids c ≡ some (r, d)
      → c.protocol_auto_discovered ≡ true
      → (d.protocol ≡ c.protocol) × (d.protocol_auto_discovered ≡ true) × (d.sent ≡ c.sent + 1)
  unfolding async_get_nodes_data
  discovery_is_final zero ids c d r h disc = cc
  discovery_is_final (suc fuel) ids c d r h disc = ground arith

  -- A client that has not discovered the protocol, whose modern request is answered with the
  -- refusal of an old boiler and whose legacy request is answered with a list, returns the nodes
  -- of that list and speaks the legacy protocol from then on.
  pub legacy_boiler_is_found :
      (fuel n : ℕ) (ids : List Text) (refusal : Json) (js : Items)
      → is_not_an_array refusal ≡ true
      → parse_reply (send n (generate_read_payload v2 ids)) ≡ ok refusal
      → parse_reply (send (n + 1) (generate_read_payload v1 ids)) ≡ ok (array js)
      → async_get_nodes_data send
          (suc (suc fuel))
          ids
          (record { protocol = v2; protocol_auto_discovered = false; sent = n })
        ≡ some (
          ok (node_items js),
          record { protocol = v1; protocol_auto_discovered = true; sent = n + 1 + 1 },
        )
  legacy_boiler_is_found fuel n ids refusal js refused first second =
      step_of (suc fuel) ids (record { protocol = v2; protocol_auto_discovered = false; sent = n })
        refusal first
      ∙ unfold after_reply in
        rw refused (
          step_of fuel ids (record { protocol = v1; protocol_auto_discovered = true; sent = n + 1 })
            (array js) second)

  all-node_items : (js : Items) → all is_node (node_items js) ≡ true
  unfolding node_items
  all-node_items nil = refl
  all-node_items (cons j js) = ground (arith, all-node_items js)

  -- Every node of the result has an id and a text.
  abbrev HasNodes : Option (Result (List Json) × Client) → Type 0
  HasNodes (some (ok js, d)) = all is_node js ≡ true
  HasNodes _ = Unit

  node_list-HasNodes : (j : Json) (d : Client) → HasNodes (some (node_list j, d))
  unfolding node_list
  node_list-HasNodes (array js) d = all-node_items js
  node_list-HasNodes null d = tt
  node_list-HasNodes (boolean b) d = tt
  node_list-HasNodes (number t) d = tt
  node_list-HasNodes (text t) d = tt
  node_list-HasNodes (object fs) d = tt

  after_reply-HasNodes :
      (r : Result Json) (c : Client) (again : Option (Result (List Json) × Client))
      → HasNodes again
      → HasNodes (after_reply r c again)
  unfolding after_reply
  after_reply-HasNodes (err e) c again h = tt
  after_reply-HasNodes (ok j) c again h =
      elim (Bool-cases (not c.protocol_auto_discovered && is_not_an_array j)) [
        | inl refused ↦ rw refused h
        | inr taken ↦ rw taken (node_list-HasNodes j (record c { protocol_auto_discovered = true }))
      ]

  -- If a reading of nodes returns a list, with any fuel and for any boiler, then each item of the
  -- list is a dictionary with an id and a text.
  get_nodes-HasNodes :
      (fuel : ℕ) (ids : List Text) (c : Client) → HasNodes (async_get_nodes_data send fuel ids c)
  unfolding async_get_nodes_data
  get_nodes-HasNodes zero ids c = tt
  get_nodes-HasNodes (suc fuel) ids c =
      after_reply-HasNodes (parse_reply (send c.sent (generate_read_payload c.protocol ids)))
        (record c { sent = c.sent + 1 })
        (async_get_nodes_data send fuel ids
          (record { protocol = v1; protocol_auto_discovered = true; sent = c.sent + 1 }))
        (get_nodes-HasNodes fuel ids
          (record { protocol = v1; protocol_auto_discovered = true; sent = c.sent + 1 }))
