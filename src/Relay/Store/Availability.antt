-- ===== src/Relay/Store/Availability.antt =====
-- When a client is told of a relay.
use awg_control.Base.{ℕ, ◌+◌, ◌≡◌, ◌≤◌, true, false, some, arith, Option-cases, inl, inr}
use awg_control.Panel.{Panel, RelayServerStatus, RelayRoute}
use awg_control.Relay.Store.{
  RelayServer, RelayEndpoint, get_relay, instance_route, pending, is_available, endpoint,
}

-- An endpoint is offered only for an enabled route of the instance whose relay is ready, was checked
-- at most 120 seconds ago and has no open operation; it is the relay's public address and the
-- route's port.
pub endpoint_sound :
    (instance_id now : ℕ) (db : Panel) (e : RelayEndpoint)
    → endpoint instance_id now db ≡ some e
    → (route : RelayRoute) × (relay : RelayServer) × (checked : ℕ) × (instance_route instance_id db
        ≡ some route)
      × (get_relay route.relay_id db ≡ some relay)
      × (route.enabled ≡ true)
      × (relay.status ≡ RelayServerStatus.ready)
      × (relay.last_checked_at ≡ some checked)
      × (now ≤ checked + 120_000)
      × (pending relay.id db ≡ false)
      × (e ≡ record { route_id = route.id; host = relay.public_ipv4; port = route.listen_port })
unfolding endpoint is_available
endpoint_sound instance_id now db e h = elim (Option-cases (instance_route instance_id db)) [
  | inl n ↦ absurd (ground (arith, n, h))
  | inr (route, f) ↦ elim (Option-cases (get_relay route.relay_id db)) [
    | inl n ↦ absurd (ground (arith, n, f, h))
    | inr (relay, g) ↦ elim (Option-cases relay.last_checked_at) [
      | inl n ↦ absurd (ground (arith, n, f, g, h))
      | inr (t, k) ↦ (
        route,
        relay,
        t,
        f,
        g,
        ground (arith, f, g, k, h),
        ground (arith, f, g, k, h),
        k,
        ground (arith, f, g, k, h),
        ground (arith, f, g, k, h),
        ground (arith, f, g, k, h),
      )
    ]
  ]
]
