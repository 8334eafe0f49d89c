-- ===== src/Plugins/Tests.antt =====
-- Two plugins that take one type, for the theorems about internal/plugin/registry.go.
use kcd.Base.{ℕ, ◌≡◌, ◌↔◌, String, Bool, true, false, Option, none, some, [], ◌∷◌, is_some}
use kcd.Protocol.{Packet, other_body}
use kcd.Plugins.{Plugin, Registry, new_registry, enabled, overran, dispatch, register_all}
use kcd.Plugins.Routing.{last_for, dispatch-register_all_iff}

abbrev ping : Plugin
ping = record {
  name = "ping";
  incoming_types = "kdeconnect.ping" ∷ [];
  outgoing_types = [];
  timeout = 0;
}

abbrev echo : Plugin
echo = record {
  name = "echo";
  incoming_types = "kdeconnect.ping" ∷ "kdeconnect.echo" ∷ [];
  outgoing_types = "kdeconnect.echo" ∷ [];
  timeout = 5;
}

abbrev pinged : Packet
pinged = record { id = 1; typ = "kdeconnect.ping"; body = other_body "hello" }

abbrev only_phone : Option (String → String → Bool)
only_phone = some (λ device name. true)

dispatch-register_all_iff_example :
    let r : Registry = record (register_all (ping ∷ echo ∷ []) new_registry) {
      device_plugin_enabled = only_phone;
    } in
    let (ran, recycled) = dispatch "phone" pinged overran r in
    (((t : ℕ) × (ran ≡ some (echo, t))) ↔ (
      (last_for pinged.typ (ping ∷ echo ∷ []) none ≡ some echo) × (enabled r "phone" echo ≡ true)))
    × ((recycled ≡ false) ↔ ((is_some ran ≡ true) × (overran ≡ overran)))
dispatch-register_all_iff_example =
    dispatch-register_all_iff (ping ∷ echo ∷ []) only_phone "phone" pinged overran echo
