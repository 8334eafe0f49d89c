-- ===== src/Plugins/Routing.antt =====
-- registry.go: the plugin that a packet goes to.
use mathlib.Core.List.{append_assoc, append-nil}
use kcd.Base.{
  ℕ, ◌≡◌, ◌↔◌, ◌∙◌, refl, sym, ap, subst, String, Bool, true, false, not, ◌||◌, Option, none, some,
  List, [], ◌∷◌, ◌++◌, arith, ◌==◌, if◌then◌else◌, Bool-cases, Option-cases, inl, inr, any, is_some,
  str_eq, lookup, insert, lookup-insert,
}
use kcd.Protocol.{Packet}
use kcd.Plugins.{
  Plugin, Registry, new_registry, index_types, register, enabled, Handling, returned, failed,
  panicked, overran, default_dispatch_timeout, dispatch, incoming_of, capabilities, register_all,
}

-- The handler does not return in time.
abbrev pub overruns : Handling → Bool
overruns returned = false
overruns failed = false
overruns panicked = false
overruns overran = true

abbrev pub listed : String → List String → Bool
listed typ types = any (λ t. str_eq t typ) types

-- The last plugin of the list that takes the type, or else this one.
abbrev pub last_for : String → List Plugin → Option Plugin → Option Plugin
last_for typ [] p = p
last_for typ (q ∷ qs) p = last_for typ qs (if listed typ q.incoming_types then some q else p)

lookup-index_types :
    (typ : String)
    → (types : List String) → (p : Plugin) → (plugins : List (String × Plugin))
    → lookup typ (index_types types p plugins)
      ≡ (if listed typ types then some p else lookup typ plugins)
unfolding index_types
lookup-index_types typ [] p plugins = refl
lookup-index_types typ (t ∷ types) p plugins =
    ground
      (arith, lookup-index_types typ types p (insert t p plugins), lookup-insert t typ p plugins)

lookup-register_all :
    (typ : String)
    → (ps : List Plugin) → (r : Registry)
    → lookup typ (register_all ps r).plugins ≡ last_for typ ps (lookup typ r.plugins)
unfolding register_all register
lookup-register_all typ [] r = refl
lookup-register_all typ (p ∷ ps) r =
    lookup-register_all typ ps (register p r)
    ∙ ap (last_for typ ps) (lookup-index_types typ p.incoming_types p r.plugins)

-- The timeout of a plugin.
abbrev timeout_of : Plugin → ℕ
timeout_of p = if p.timeout == 0 then default_dispatch_timeout else p.timeout

module _ (device_id : String) (pkt : Packet) (handling : Handling) (r : Registry) where
  dispatch-found :
      (q : Plugin)
      → lookup pkt.typ r.plugins ≡ some q
      → enabled r device_id q ≡ true
      → dispatch device_id pkt handling r ≡ (some (q, timeout_of q), not (overruns handling))
  unfolding dispatch
  dispatch-found q e f = rw (e, dispatch) (ground (arith, f))

  dispatch-unknown :
      lookup pkt.typ r.plugins ≡ none → dispatch device_id pkt handling r ≡ (none, true)
  unfolding dispatch
  dispatch-unknown e = rw (e, dispatch)

  dispatch-disabled :
      (q : Plugin)
      → lookup pkt.typ r.plugins ≡ some q
      → enabled r device_id q ≡ false
      → dispatch device_id pkt handling r ≡ (none, true)
  unfolding dispatch
  dispatch-disabled q e f = rw (e, dispatch) (ground (arith, f))

  runs_iff :
      (p : Plugin)
      → ((t : ℕ) × ((dispatch device_id pkt handling r).0 ≡ some (p, t)))
        ↔ ((lookup pkt.typ r.plugins ≡ some p) × (enabled r device_id p ≡ true))
  runs_iff p = (forward, λ h. (timeout_of p, ap (λ x. x.0) (dispatch-found p h.0 h.1)))
    where
      forward :
          ((t : ℕ) × ((dispatch device_id pkt handling r).0 ≡ some (p, t)))
          → (lookup pkt.typ r.plugins ≡ some p) × (enabled r device_id p ≡ true)
      forward (t, h) = elim (Option-cases (lookup pkt.typ r.plugins)) [
        | inl e ↦ ground (arith, h, dispatch-unknown e)
        | inr (q, e) ↦ elim (Bool-cases (enabled r device_id q)) [
          | inl f ↦
              let g : q ≡ p = ground (arith, h, dispatch-found q e f) in
              (e ∙ ap some g, subst (λ x. enabled r device_id x ≡ true) g f)
          | inr f ↦ ground (arith, h, dispatch-disabled q e f)
        ]
      ]

  overran_iff : (handling ≡ overran) ↔ (overruns handling ≡ true)
  overran_iff = ground arith

  kept_iff :
      let (ran, recycled) = dispatch device_id pkt handling r in
      (recycled ≡ false) ↔ ((is_some ran ≡ true) × (handling ≡ overran))
  kept_iff = elim (Option-cases (lookup pkt.typ r.plugins)) [
    | inl e ↦ ground (arith, dispatch-unknown e)
    | inr (q, e) ↦ elim (Bool-cases (enabled r device_id q)) [
      | inl f ↦ ground (arith, dispatch-found q e f, overran_iff)
      | inr f ↦ ground (arith, dispatch-disabled q e f)
    ]
  ]

-- A handler runs exactly if its plugin is the last registered one that takes the packet's type and
-- the policy allows it for the device; the packet is withheld from the pool exactly if a handler
-- runs and outlasts its time.
pub dispatch-register_all_iff :
    (ps : List Plugin)
    → (policy : Option (String → String → Bool)) → (device_id : String) → (pkt : Packet)
    → (handling : Handling) → (p : Plugin)
    → let r : Registry = record (register_all ps new_registry) { device_plugin_enabled = policy } in
      let (ran, recycled) = dispatch device_id pkt handling r in
      (((t : ℕ) × (ran ≡ some (p, t)))
        ↔ ((last_for pkt.typ ps none ≡ some p) × (enabled r device_id p ≡ true)))
      × ((recycled ≡ false) ↔ ((is_some ran ≡ true) × (handling ≡ overran)))
unfolding new_registry lookup
dispatch-register_all_iff ps policy device_id pkt handling p =
    let r : Registry = record (register_all ps new_registry) { device_plugin_enabled = policy } in
    let e : lookup pkt.typ r.plugins ≡ last_for pkt.typ ps none =
      lookup-register_all pkt.typ ps new_registry in
    (ground (arith, runs_iff device_id pkt handling r p, e), kept_iff device_id pkt handling r)

listed-append :
    (typ : String)
    → (xs ys : List String) → listed typ (xs ++ ys) ≡ (listed typ xs || listed typ ys)
listed-append typ [] ys = refl
listed-append typ (x ∷ xs) ys = ground (arith, listed-append typ xs ys)

is_some-last_for :
    (typ : String)
    → (ps : List Plugin) → (p : Option Plugin)
    → is_some (last_for typ ps p) ≡ (is_some p || listed typ (incoming_of ps))
unfolding incoming_of
is_some-last_for typ [] p = ground arith
is_some-last_for typ (q ∷ qs) p = ground (
  arith,
  listed-append typ q.incoming_types (incoming_of qs),
  is_some-last_for typ qs (if listed typ q.incoming_types then some q else p),
)

all-register_all : (ps : List Plugin) → (r : Registry) → (register_all ps r).all ≡ r.all ++ ps
unfolding register_all register
all-register_all [] r = sym (append-nil r.all)
all-register_all (p ∷ ps) r = all-register_all ps (register p r) ∙ append_assoc r.all (p ∷ []) ps

is_some_value : (o : Option Plugin) → is_some o ≡ true → (p : Plugin) × (o ≡ some p)
is_some_value none h = cc
is_some_value (some p) h = (p, refl)

-- What the daemon advertises is what it handles: a type is among the incoming capabilities exactly
-- if some plugin is registered for it.
pub capabilities-register_all_iff :
    (ps : List Plugin)
    → (typ : String)
    → let r = register_all ps new_registry in
      (listed typ (capabilities r).0 ≡ true) ↔ ((p : Plugin) × (lookup typ r.plugins ≡ some p))
unfolding capabilities new_registry lookup
capabilities-register_all_iff ps typ =
    let e : lookup typ (register_all ps new_registry).plugins ≡ last_for typ ps none =
      lookup-register_all typ ps new_registry in
    let f : (register_all ps new_registry).all ≡ ps = all-register_all ps new_registry in
    rw (e, f)
      (
        λ h. is_some_value (last_for typ ps none) (is_some-last_for typ ps none ∙ h),
        λ h. sym (is_some-last_for typ ps none) ∙ ap is_some h.1,
      )
