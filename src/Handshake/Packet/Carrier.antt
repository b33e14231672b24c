-- ===== src/Handshake/Packet/Carrier.antt =====
-- src/handshake.c: the check of the transport that a handshake advertises.
use fastd.Base.{◌≡◌, ◌≢◌, ◌↔◌, ◌⊎◌, refl, true, arith}
use fastd.Handshake.Parse.{Handshake}
use fastd.Handshake.Packet.{
  Transport, unset, udp, tcp, auto, get_handshake_transport, transport_eq, transport_allows,
  check_transport,
}

transport_eq-same : (s t : Transport) → (transport_eq s t ≡ true) ↔ (s ≡ t)
transport_eq-same unset unset = (λ e. refl, λ e. refl)
transport_eq-same udp udp = (λ e. refl, λ e. refl)
transport_eq-same tcp tcp = (λ e. refl, λ e. refl)
transport_eq-same auto auto = (λ e. refl, λ e. refl)
transport_eq-same unset udp = (λ e. cc, λ e. cc)
transport_eq-same unset tcp = (λ e. cc, λ e. cc)
transport_eq-same unset auto = (λ e. cc, λ e. cc)
transport_eq-same udp unset = (λ e. cc, λ e. cc)
transport_eq-same udp tcp = (λ e. cc, λ e. cc)
transport_eq-same udp auto = (λ e. cc, λ e. cc)
transport_eq-same tcp unset = (λ e. cc, λ e. cc)
transport_eq-same tcp udp = (λ e. cc, λ e. cc)
transport_eq-same tcp auto = (λ e. cc, λ e. cc)
transport_eq-same auto unset = (λ e. cc, λ e. cc)
transport_eq-same auto udp = (λ e. cc, λ e. cc)
transport_eq-same auto tcp = (λ e. cc, λ e. cc)

-- On a socket whose transport is set, the transport check passes exactly if the handshake advertises
-- the socket's transport and the peer is configured for it or for any transport.
pub check_transport_iff :
    (h : Handshake) (actual configured : Transport)
    → actual ≢ unset
    → (check_transport actual configured h ≡ true)
      ↔ ((get_handshake_transport h ≡ actual) × ((configured ≡ auto) ⊎ (configured ≡ actual)))
unfolding check_transport transport_allows
check_transport_iff h actual configured set = (forth, back)
  where
    advertised : Transport
    advertised = get_handshake_transport h

    forth :
        check_transport actual configured h ≡ true
        → (advertised ≡ actual) × ((configured ≡ auto) ⊎ (configured ≡ actual))
    forth e = ground (
      arith,
      transport_eq-same advertised unset,
      transport_eq-same advertised actual,
      transport_eq-same configured auto,
      transport_eq-same configured actual,
    )

    back :
        (advertised ≡ actual) × ((configured ≡ auto) ⊎ (configured ≡ actual))
        → check_transport actual configured h ≡ true
    back e = ground (
      arith,
      transport_eq-same advertised unset,
      transport_eq-same advertised actual,
      transport_eq-same configured auto,
      transport_eq-same configured actual,
    )
