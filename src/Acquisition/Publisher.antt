-- ===== src/Acquisition/Publisher.antt =====
-- edge/acquisition/mqtt_publisher.py: telemetry is published live when the broker is reached and
-- buffered when not. The client records what it is given; paho's delivery is not modelled. The
-- calls come one at a time.
use shtapm.Base.{
  ℕ, ◌+◌, ◌-◌, ◌*◌, ◌/◌, not, ◌&&◌, Bool, true, false, List, [], ◌∷◌, ◌++◌, length, Option, none,
  if◌then◌else◌, ◌==◌,
}
use mathlib.Core.Option.{map as map_option}
use shtapm.Base.Ratio.{Ratio, frac, leb_r}
use shtapm.Base.Int.{pos_part}
use shtapm.Acquisition.RingBuffer.{RingBuffer, new_buffer, push, clear, snapshot}

-- The messages of the status topic, which are retained, and of the telemetry topic.
pub data Sent (M : Type 0) : Type 0 where
  status : Bool → Sent M
  telemetry : M → Sent M

pub record Publisher (M : Type 0) : Type 0 where
  pub buffer : RingBuffer M
  pub connected : Bool
  pub sent : List (Sent M)

unfoldable pub send : {M : Type 0} → List (Sent M) → Publisher M → Publisher M
send messages p = record p { sent = p.sent ++ messages }

unfoldable pub publish_live : {M : Type 0} → M → Publisher M → Publisher M
publish_live m p = send (telemetry m ∷ []) p

unfoldable pub publish_pending : {M : Type 0} → List M → Publisher M → Publisher M
publish_pending [] p = p
publish_pending (m ∷ rest) p = publish_pending rest (publish_live m p)

unfoldable pub drain : {M : Type 0} → Publisher M → Publisher M
drain p =
    let pending = snapshot p.buffer in
    publish_pending pending (record p { buffer = clear p.buffer })

unfoldable pub on_connect : {M : Type 0} → Publisher M → Publisher M
on_connect p = drain (send (status true ∷ []) (record p { connected = true }))

unfoldable pub on_disconnect : {M : Type 0} → Publisher M → Publisher M
on_disconnect p = record p { connected = false }

unfoldable pub publish : {M : Type 0} → M → Publisher M → Publisher M
publish m p =
    let buffered = record p { buffer = push m p.buffer } in
    let drained = drain buffered in
    if p.connected
    then if length p.buffer.items == 0 then publish_live m p else drained
    else buffered

-- The calls that reach the publisher between start and stop.
pub data Event (M : Type 0) : Type 0 where
  connects disconnects : Event M
  publishes : M → Event M

unfoldable pub handle : {M : Type 0} → Event M → Publisher M → Publisher M
handle connects p = on_connect p
handle disconnects p = on_disconnect p
handle (publishes m) p = publish m p

unfoldable pub handle_all : {M : Type 0} → List (Event M) → Publisher M → Publisher M
handle_all [] p = p
handle_all (e ∷ rest) p = handle_all rest (handle e p)

-- `buffer_capacity`, for a rate and a retention that are positive fractions: the product,
-- rounded up.
unfoldable pub buffer_capacity : Ratio → Ratio → ℕ
buffer_capacity rate retention =
    (pos_part rate.num * pos_part retention.num + (rate.den * retention.den - 1))
    / (rate.den * retention.den)

-- `ResilientTelemetryPublisher(rate_hz, retention_seconds)`, before it connects; `none` is a
-- ValueError.
unfoldable pub new_publisher : {M : Type 0} → Ratio → Ratio → Option (Publisher M)
new_publisher rate retention =
    if not (leb_r (frac 1 1) rate && leb_r rate (frac 10 1))
    then none
    else if leb_r retention (frac 0 1)
    then none
    else map_option (λ b. record { buffer = b; connected = false; sent = [] })
        (new_buffer (buffer_capacity rate retention))
