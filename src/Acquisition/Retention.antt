-- ===== src/Acquisition/Retention.antt =====
-- The buffer size of edge/acquisition/mqtt_publisher.py against the length of an outage.
use mathlib.Core.Option.{map as map_option}
use native.Mathlib.Nat.{le-div_iff_mul-le}
use shtapm.Base.{
  ℕ, ◌-◌, ◌*◌, ◌≤◌, ◌<◌, ◌≡◌, refl, ap, ◌∙◌, Bool, true, false, not, ◌&&◌, Option, none, some, List,
  [], ◌∷◌, ◌++◌, map, length, drop, arith, if◌then◌else◌,
}
use shtapm.Base.Ratio.{Ratio, frac, leb_r}
use shtapm.Base.Int.{pos_part}
use shtapm.Acquisition.RingBuffer.{new_buffer, clear}
use shtapm.Acquisition.Publisher.{
  Publisher, telemetry, status, publishes, connects, disconnects, buffer_capacity, new_publisher,
  handle_all, handle, on_connect, drain, send, publish_pending,
}
use shtapm.Acquisition.Resume.{outage_lem}

-- At most as many messages as the rate gives in the retention time.
abbrev pub Fits : ℕ → Ratio → Ratio → Type 0
Fits n rate retention = n * (rate.den * retention.den) ≤ pos_part rate.num * pos_part retention.num

Fits-buffer_capacity :
    (n : ℕ) (rate retention : Ratio)
    → 0 < rate.den * retention.den
    → Fits n rate retention
    → n ≤ buffer_capacity rate retention
unfolding buffer_capacity
Fits-buffer_capacity n rate retention d f = (le-div_iff_mul-le d).1 (omega (arith, f))

module _ {M : Type 0} where
  abbrev unconnected : ℕ → Publisher M
  unconnected n = record {
    buffer = record { capacity = n; items = [] };
    connected = false;
    sent = [];
  }

  made :
      (n : ℕ) (p : Publisher M)
      → map_option (λ b. record { buffer = b; connected = false; sent = [] }) (new_buffer n)
        ≡ some p
      → (p ≡ unconnected n) × (1 ≤ n)
  unfolding new_buffer
  made n p e = ground arith

  past_checks :
      (b b' : Bool) (o : Option (Publisher M)) (p : Publisher M)
      → (if b then none else if b' then none else o) ≡ some p
      → o ≡ some p
  past_checks b b' o p e = ground arith

  new_publisher_lem :
      (rate retention : Ratio) (p : Publisher M)
      → new_publisher rate retention ≡ some p
      → (p ≡ unconnected (buffer_capacity rate retention)) × (1 ≤ buffer_capacity rate retention)
  unfolding new_publisher
  new_publisher_lem rate retention p e = made (buffer_capacity rate retention) p (
      past_checks (not (leb_r (frac 1 1) rate && leb_r rate (frac 10 1)))
        (leb_r retention (frac 0 1))
        (map_option (λ b. record { buffer = b; connected = false; sent = [] })
          (new_buffer (buffer_capacity rate retention)))
        p e)

  -- A new publisher that connects and then loses its connection delivers, once it is connected
  -- again, all messages of the outage in their order, if they are at most as many as its rate
  -- gives in its retention time; rate and retention are fractions with positive denominators.
  pub retention_lem :
      (rate retention : Ratio) (p : Publisher M) (ms : List M)
      → new_publisher rate retention ≡ some p
      → 0 < rate.den * retention.den
      → Fits (length ms) rate retention
      → let q = handle_all (connects ∷ disconnects ∷ (map publishes ms ++ (connects ∷ []))) p in
        (q.sent ≡ status true ∷ status true ∷ map telemetry ms) × (q.buffer.items ≡ [])
  unfolding handle_all handle on_connect drain send publish_pending clear
  retention_lem rate retention p ms e d f =
      let n = buffer_capacity rate retention in
      let (same, room) = new_publisher_lem rate retention p e in
      let online : Publisher M = record {
        buffer = record { capacity = n; items = [] };
        connected = true;
        sent = status true ∷ [];
      } in
      let (sent, empty, _) = outage_lem online ms refl room in
      let all_kept : length ms - n ≡ 0 =
        omega (arith, Fits-buffer_capacity (length ms) rate retention d f) in
      rw same
        (sent ∙ ap (λ k. status true ∷ status true ∷ map telemetry (drop k ms)) all_kept, empty)
