-- ===== src/Plugins.antt =====
-- The plugin registry, internal/plugin/registry.go: which plugin handles a packet, and what a
-- plugin may send.
--
-- A plugin is what the registry reads of it; what its handler does with a packet is an input of
-- `dispatch`. The policy is that of the daemon's configuration, a parameter here.
pub mod Routing
mod Tests
use kcd.Base.{
  ℕ, ◌*◌, String, Bool, true, false, not, Option, none, some, List, [], ◌∷◌, ◌++◌, ◌==◌,
  if◌then◌else◌, lookup, insert, str_eq,
}
use kcd.Protocol.{Packet}

pub record Plugin : Type 0 where
  pub name : String
  pub incoming_types : List String
  pub outgoing_types : List String
  pub timeout : ℕ

pub record Registry : Type 0 where
  pub plugins : List (String × Plugin)
  pub by_name : List (String × Plugin)
  pub all : List Plugin
  pub device_plugin_enabled : Option (String → String → Bool)

-- 15 seconds.
abbrev pub default_dispatch_timeout : ℕ
default_dispatch_timeout = 15 * 1000000000

unfoldable pub new_registry : Registry
new_registry = record { plugins = []; by_name = []; all = []; device_plugin_enabled = none }

unfoldable pub set_device_plugin_policy : (String → String → Bool) → Registry → Registry
set_device_plugin_policy policy r = record r { device_plugin_enabled = some policy }

-- The loop over the types; a type that another plugin has is taken over.
unfoldable pub index_types : List String → Plugin → List (String × Plugin) → List (String × Plugin)
index_types [] p plugins = plugins
index_types (typ ∷ types) p plugins = index_types types p (insert typ p plugins)

unfoldable pub register : Plugin → Registry → Registry
unfolding index_types
register p r = record r {
  all = r.all ++ p ∷ [];
  by_name = insert p.name p r.by_name;
  plugins = index_types p.incoming_types p r.plugins;
}

unfoldable pub enabled : Registry → String → Plugin → Bool
enabled r device_id p = elim r.device_plugin_enabled [
  | none ↦ true
  | some policy ↦ policy device_id p.name
]

-- What the handler does: it returns, with or without an error, or panics, or outlasts its time.
pub data Handling : Type 0 where
  returned failed panicked overran : Handling

-- The plugin whose handler ran, if one did, with its timeout, and whether the packet may be
-- recycled.
unfoldable pub dispatch : String → Packet → Handling → Registry → Option (Plugin × ℕ) × Bool
unfolding enabled
dispatch device_id pkt handling r = elim (lookup pkt.typ r.plugins) [
  | none ↦ (none, true)
  | some p ↦
      let timeout = if p.timeout == 0 then default_dispatch_timeout else p.timeout in
      let recycled : Bool = elim handling [
        | returned ↦ true
        | failed ↦ true
        | panicked ↦ true
        | overran ↦ false
      ] in
      if enabled r device_id p then (some (p, timeout), recycled) else (none, true)
]

unfoldable pub incoming_of : List Plugin → List String
incoming_of [] = []
incoming_of (p ∷ ps) = p.incoming_types ++ incoming_of ps

unfoldable pub outgoing_of : List Plugin → List String
outgoing_of [] = []
outgoing_of (p ∷ ps) = p.outgoing_types ++ outgoing_of ps

unfoldable pub capabilities : Registry → List String × List String
unfolding incoming_of outgoing_of
capabilities r = (incoming_of r.all, outgoing_of r.all)

-- `Send` of the sender that a plugin is given: what reaches the device.
unfoldable pub policy_send : Registry → String → Plugin → Packet → Option Packet
unfolding enabled
policy_send r device_id p pkt = if enabled r device_id p then some pkt else none

unfoldable pub get_by_name : String → Registry → Option Plugin
get_by_name name r = lookup name r.by_name

unfoldable pub register_all : List Plugin → Registry → Registry
register_all [] r = r
register_all (p ∷ ps) r = register_all ps (register p r)

-- What a list of sends through the sender of a plugin comes to.
unfoldable pub policy_sends : Registry → String → Plugin → List Packet → List Packet
unfolding policy_send
policy_sends r device_id p [] = []
policy_sends r device_id p (pkt ∷ pkts) =
    let rest = policy_sends r device_id p pkts in
    elim (policy_send r device_id p pkt) [ none ↦ rest | some sent ↦ sent ∷ rest ]

-- `OnConnect` and `OnDisconnect`: each registered plugin is called, with its sender; `hook` is what
-- the plugin's own method then sends. The packets that reach the device, in their order.
unfoldable pub call_all : Registry → String → (Plugin → List Packet) → List Plugin → List Packet
unfolding policy_sends
call_all r device_id hook [] = []
call_all r device_id hook (p ∷ ps) =
    policy_sends r device_id p (hook p) ++ call_all r device_id hook ps

unfoldable pub on_connect_all : String → (Plugin → List Packet) → Registry → List Packet
unfolding call_all
on_connect_all device_id hook r = call_all r device_id hook r.all

unfoldable pub on_disconnect_all : String → (Plugin → List Packet) → Registry → List Packet
unfolding call_all
on_disconnect_all device_id hook r = call_all r device_id hook r.all

-- `Lookup`, for a type that the test recognises: the first plugin of it.
unfoldable pub find_first : (Plugin → Bool) → List Plugin → Option Plugin
find_first is_type [] = none
find_first is_type (p ∷ ps) =
    let later = find_first is_type ps in if is_type p then some p else later

unfoldable pub lookup_plugin : (Plugin → Bool) → Option Registry → Option Plugin
unfolding find_first
lookup_plugin is_type none = none
lookup_plugin is_type (some r) = find_first is_type r.all
