-- ===== src/Stream/Tests.antt =====
-- The theorems about the broadcaster at concrete inputs.
use airspace_conformance_pla.Base.{ℕ, false, ◌&&◌, ◌≡◌, refl, some, [], ◌∷◌, ltb, if◌then◌else◌}
use airspace_conformance_pla.Stream.{
  Broadcaster, Sent, delivered, cancelled, sending, broadcast_once, round,
}
use airspace_conformance_pla.Stream.Broadcast.{
  is_delivered, has_client, broadcast_once-IsSent, round-ends,
}

abbrev viewers : Broadcaster
viewers = record { clients = 1 ∷ 2 ∷ 3 ∷ []; dropped = [] }

-- The task is cancelled while it sends to the second client.
abbrev send : ℕ → Sent
send c = if ltb c 2 then delivered else if ltb c 3 then cancelled else delivered

broadcast_once-IsSent_example :
    let (b', result) = broadcast_once send viewers in
    ((k : ℕ) → has_client k b' ≡ (has_client k viewers && is_delivered (send k)))
    × (result ≡ some 2)
broadcast_once-IsSent_example = broadcast_once-IsSent send viewers refl

round-ends_example : (round (sending send) viewers).1 ≡ false
round-ends_example = round-ends (sending send) viewers
