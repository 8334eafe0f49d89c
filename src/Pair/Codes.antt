-- ===== src/Pair/Codes.antt =====
-- The code that both users compare (actions.go, handle.go).
use kcd.Base.{
  ℕ, ◌+◌, ◌/◌, ◌≤◌, ◌<◌, ◌≡◌, ◌≢◌, ◌∙◌, refl, ap, String, Bool, true, false, not, ◌&&◌, Option,
  none, some, List, [], ◌∷◌, ◌++◌, arith, length, str_eq, str_eq_refl, str_eq_iff, lookup-insert,
}
use kcd.Base.Int.{ℤ, pos, ◌-ℤ◌}
use kcd.Protocol.{Packet, pair_accept, type_pair, new_pair_packet, decode_pair_body}
use kcd.Device.{
  PairingState, pair_requested, pair_requested_by_peer, unknown, paired, unpaired, is_state,
  Certificate, Device, is_connected, send_capacity, transition_state,
}
use kcd.Device.Registry.{get, write}
use kcd.Device.Discovery.{second}
use kcd.Device.Io.{send, packet_allowed}
use kcd.Device.Telemetry.{peer_cert}
use kcd.Cert.{verification_key}
use kcd.Cert.Laws.{verification_key_comm}
use kcd.Pair.{
  Plugin, Effect, pair_requested_event, dev, state_of, record_effect, pairing_timestamp_for,
  change_state, on_device, update_pending_timer, cancel_pending_timer, schedule_pending_timer,
  transition, notify_state_changed, send_packet, store_timestamp,
}
use kcd.Pair.Actions.{
  requested, request_pairing, validate_request_timestamp, start_incoming_request, consider_request,
  handle_pair_request, handle,
}

module _ (a now : ℕ) (t : ℤ) (p : Plugin) where
  peer_cert-store : dev a (store_timestamp a t p) ≡ dev a p
  unfolding store_timestamp
  peer_cert-store = refl

  peer_cert-send : (c : Bool) → peer_cert (dev a (send_packet a c t now p)) ≡ peer_cert (dev a p)
  unfolding send_packet on_device send peer_cert
  peer_cert-send c = ground arith

  env-send :
      (c : Bool)
      → ((send_packet a c t now p).sha256 ≡ p.sha256)
        × ((send_packet a c t now p).local_cert ≡ p.local_cert)
  unfolding send_packet
  env-send c = (refl, refl)

  timestamp_for-store : pairing_timestamp_for (dev a p).id (store_timestamp a t p) ≡ t
  unfolding pairing_timestamp_for store_timestamp
  timestamp_for-store = ground (
    arith,
    lookup-insert (dev a p).id (dev a p).id t p.pairing_timestamp,
    str_eq_refl (dev a p).id,
  )

-- The code that the requesting side shows.
code-request_pairing :
    (a now : ℕ)
    → (p : Plugin) → (c : Certificate) → state_of a p ≢ paired
    → state_of a p ≢ pair_requested_by_peer
    → peer_cert (dev a p) ≡ some c
    → (request_pairing a now p).1
      ≡ requested (verification_key p.sha256 p.local_cert (some c) (pos (now / second)))
unfolding request_pairing store_timestamp
code-request_pairing a now p c u w e =
    let t = pos (now / second) in
    let p0 = store_timestamp a t p in
    ground (arith, e, u, w, peer_cert-send a now t p0 pair_accept, env-send a now t p0 pair_accept)

-- The code in the last event, if that announces a request.
abbrev pub shown : List Effect → Option (List ℕ)
shown [] = none
shown (e ∷ f ∷ es) = shown (f ∷ es)
shown (pair_requested_event id name dtype code ∷ []) = some code
shown (e ∷ []) = none

shown_last :
    (es : List Effect)
    → (id name dtype : String) → (code : List ℕ)
    → shown (es ++ pair_requested_event id name dtype code ∷ []) ≡ some code
shown_last [] id name dtype code = refl
shown_last (e ∷ []) id name dtype code = refl
shown_last (e ∷ f ∷ es) id name dtype code = shown_last (f ∷ es) id name dtype code

bus-effect : (c : Bool) → (e : Effect) → (p : Plugin) → (record_effect c e p).has_bus ≡ p.has_bus
unfolding record_effect
bus-effect c e p = ground arith

bus-change_state :
    (a : ℕ) → (s : PairingState) → (p : Plugin) → (change_state a s p).has_bus ≡ p.has_bus
unfolding change_state update_pending_timer notify_state_changed record_effect
bus-change_state a s p = ground arith

-- The code that the requested side announces.
code-start :
    (a : ℕ)
    → (p : Plugin) → (c : Certificate) → p.has_bus ≡ true
    → peer_cert (dev a p) ≡ some c
    → shown (start_incoming_request a p).trace
      ≡ some
          (verification_key p.sha256 p.local_cert (some c) (pairing_timestamp_for (dev a p).id p))
unfolding start_incoming_request record_effect
code-start a p c h e =
    let p1 = change_state a pair_requested_by_peer p in
    rw (bus-change_state a pair_requested_by_peer p ∙ h, e, start_incoming_request)
      (shown_last p1.trace _ _ _ _)

module _ (a n now : ℕ) (p : Plugin) where
  valid-stamped :
      0 < n
      → now / 1000000000 ≤ n + 1800
      → n ≤ now / 1000000000 + 1800
      → validate_request_timestamp a (pos n) now p ≡ (store_timestamp a (pos n) p, true)
  unfolding validate_request_timestamp ◌-ℤ◌
  valid-stamped l u v = ground arith

  open-stamped :
      p.accept_requests ≢ "never"
      → (not (is_state (state_of a p) unknown) && str_eq p.accept_requests "never") ≡ false
  open-stamped c = ground (arith, str_eq_iff p.accept_requests "never", c)

  consider-stamped :
      0 < n
      → now / 1000000000 ≤ n + 1800
      → n ≤ now / 1000000000 + 1800
      → p.accept_requests ≢ "never"
      → consider_request a (record { pair = true; timestamp = pos n }) now p
        ≡ start_incoming_request a (store_timestamp a (pos n) p)
  unfolding consider_request
  consider-stamped l u v c = rw (open-stamped c, valid-stamped l u v)

  handle-stamped :
      0 < n
      → now / 1000000000 ≤ n + 1800
      → n ≤ now / 1000000000 + 1800
      → state_of a p ≡ unpaired
      → p.accept_requests ≢ "never"
      → handle_pair_request a (record { pair = true; timestamp = pos n }) now p
        ≡ start_incoming_request a (store_timestamp a (pos n) p)
  unfolding handle_pair_request
  handle-stamped l u v s c = rw (s, handle_pair_request) (consider-stamped l u v c)

chan-change_state :
    (a : ℕ) (s : PairingState) (p : Plugin)
    → (dev a (change_state a s p)).send_chan ≡ (dev a p).send_chan
unfolding change_state update_pending_timer cancel_pending_timer schedule_pending_timer
    notify_state_changed record_effect transition on_device write transition_state
chan-change_state a s p = ground arith

-- A connected device with room in its channel takes a packet of a pairing.
chan-send :
    (a : ℕ) (c : Bool) (t : ℤ) (now : ℕ) (p : Plugin)
    → is_connected (dev a p) ≡ true
    → length (dev a p).send_chan < send_capacity
    → (dev a (send_packet a c t now p)).send_chan
      ≡ (dev a p).send_chan ++ new_pair_packet c t (now / 1000000) ∷ []
unfolding send_packet on_device write send packet_allowed new_pair_packet
chan-send a c t now p live room = ground (arith, live, room, str_eq_refl type_pair)

chan-request_pairing :
    (a now : ℕ) (p : Plugin)
    → state_of a p ≢ paired
    → state_of a p ≢ pair_requested_by_peer
    → is_connected (dev a p) ≡ true
    → length (dev a p).send_chan < send_capacity
    → (dev a (request_pairing a now p).0).send_chan
      ≡ (dev a p).send_chan ++ new_pair_packet pair_accept (pos (now / second)) (now / 1000000) ∷ []
unfolding request_pairing store_timestamp
chan-request_pairing a now p u w live room =
    let t = pos (now / second) in
    let p0 = store_timestamp a t p in
    let p1 = send_packet a pair_accept t now p0 in
    let e = chan-send a pair_accept t now p0 live room in
    let f = chan-change_state a pair_requested p1 in ground (arith, u, w, e, f)

connected-peer_cert : (d : Device) (c : Certificate) → peer_cert d ≡ some c → is_connected d ≡ true
unfolding peer_cert is_connected
connected-peer_cert d c h = ground (arith, h)

handle-request :
    (sender : String) (b : ℕ) (t : ℤ) (sent later : ℕ) (q : Plugin)
    → get sender q.store ≡ some b
    → (handle sender (new_pair_packet pair_accept t sent) later q).0
      ≡ handle_pair_request b (record { pair = true; timestamp = t }) later q
unfolding handle new_pair_packet decode_pair_body
handle-request sender b t sent later q e = rw (e, handle) (refl)

-- A device asks another, which has it as unpaired, takes requests and has a bus. Where each has the
-- certificate of the other, both hash alike, and the channel to the other has room, the request puts
-- one packet on that channel, behind those that wait there; and where the other handles this packet
-- within half an hour, the code that the first returns to its user is the code that the second
-- announces to its own.
pub request_pairing-handle :
    (a now : ℕ)
    → (p : Plugin) → (sender : String) → (b later : ℕ) → (q : Plugin) → (mine theirs : Certificate)
    → state_of a p ≢ paired
    → state_of a p ≢ pair_requested_by_peer
    → length (dev a p).send_chan < send_capacity
    → peer_cert (dev a p) ≡ some theirs
    → p.local_cert ≡ some mine
    → get sender q.store ≡ some b
    → state_of b q ≡ unpaired
    → q.accept_requests ≢ "never"
    → q.has_bus ≡ true
    → peer_cert (dev b q) ≡ some mine
    → q.local_cert ≡ some theirs
    → q.sha256 ≡ p.sha256
    → 0 < now / 1000000000
    → later / 1000000000 ≤ now / 1000000000 + 1800
    → now / 1000000000 ≤ later / 1000000000 + 1800
    → let (p', result) = request_pairing a now p in
      (code : List ℕ) × (sent : Packet) × ((dev a p').send_chan ≡ (dev a p).send_chan ++ sent ∷ [])
      × (result ≡ requested code)
      × (shown (handle sender sent later q).0.trace ≡ some code)
unfolding store_timestamp
request_pairing-handle a now p sender b later q mine theirs u w room pc lc known s n h qc ql sh l v
      x =
    let t = pos (now / 1000000000) in
    (
      verification_key p.sha256 (some mine) (some theirs) t,
      new_pair_packet pair_accept t (now / 1000000),
      chan-request_pairing a now p u w (connected-peer_cert (dev a p) theirs pc) room,
      code-request_pairing a now p theirs u w pc
          ∙ ap (λ o. requested (verification_key p.sha256 o (some theirs) t)) lc,
      ap (λ r. shown r.trace)
            (handle-request sender b t (now / 1000000) later q known
              ∙ handle-stamped b (now / 1000000000) later q l v x s n)
          ∙ code-start b (store_timestamp b t q) mine h qc
          ∙ cc (
            ql,
            sh,
            timestamp_for-store b later t q,
            verification_key_comm p.sha256 (some theirs) (some mine) t,
          ),
    )
