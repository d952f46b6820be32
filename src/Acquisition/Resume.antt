-- ===== src/Acquisition/Resume.antt =====
-- What the publisher of edge/acquisition/mqtt_publisher.py delivers across lost connections.
use shtapm.Base.{
  ◌-◌, ◌≤◌, ◌≡◌, true, false, List, [], ◌∷◌, ◌++◌, map, length, drop, arith, refl, ap, sym, ◌∙◌,
  append-nil, append_assoc,
}
use shtapm.Acquisition.RingBuffer.{RingBuffer, push, extend, clear, extend_lem}
use shtapm.Acquisition.Publisher.{
  Publisher, Sent, telemetry, status, Event, publishes, connects, disconnects, send, publish_live,
  publish_pending, drain, on_connect, on_disconnect, publish, handle, handle_all,
}

module _ {M : Type 0} where
  pub publish_pending_lem :
      (ms : List M) (p : Publisher M)
      → publish_pending ms p ≡ record p { sent = p.sent ++ map telemetry ms }
  unfolding publish_pending publish_live send
  publish_pending_lem [] p = ap (λ s. record p { sent = s }) (sym (append-nil p.sent))
  publish_pending_lem (m ∷ rest) p =
      publish_pending_lem rest (publish_live m p)
      ∙ ap (λ s. record p { sent = s })
          (append_assoc p.sent (telemetry m ∷ []) (map telemetry rest))

  abbrev offline : RingBuffer M → List (Sent M) → Publisher M
  offline b s = record { buffer = b; connected = false; sent = s }

  handle_all-offline :
      (ms : List M) (b : RingBuffer M) (s : List (Sent M)) (later : List (Event M))
      → handle_all (map publishes ms ++ later) (offline b s)
        ≡ handle_all later (offline (extend ms b) s)
  unfolding handle_all handle publish extend
  handle_all-offline [] b s later = refl
  handle_all-offline (m ∷ rest) b s later = handle_all-offline rest (push m b) s later

  on_connect-offline :
      (b : RingBuffer M) (s : List (Sent M))
      → on_connect (offline b s) ≡ record {
        buffer = clear b;
        connected = true;
        sent = s ++ (status true ∷ map telemetry b.items);
      }
  unfolding on_connect send drain clear
  on_connect-offline b s =
      publish_pending_lem b.items
        (record { buffer = clear b; connected = true; sent = s ++ (status true ∷ []) })
      ∙ ap (λ t. record { buffer = clear b; connected = true; sent = t })
          (append_assoc s (status true ∷ []) (map telemetry b.items))

  outage_state :
      (p : Publisher M) (ms : List M)
      → handle_all (disconnects ∷ (map publishes ms ++ (connects ∷ []))) p ≡ record {
        buffer = clear (extend ms p.buffer);
        connected = true;
        sent = p.sent ++ (status true ∷ map telemetry (extend ms p.buffer).items);
      }
  unfolding handle_all handle on_disconnect
  outage_state p ms =
      handle_all-offline ms p.buffer p.sent (connects ∷ [])
      ∙ on_connect-offline (extend ms p.buffer) p.sent

  -- An outage and the connection after it, from a buffer that is empty: the retained online
  -- status is sent and then, in their order, the newest messages of the outage, as many as the
  -- capacity; all of them if there were no more. The buffer is empty again.
  pub outage_lem :
      (p : Publisher M) (ms : List M)
      → p.buffer.items ≡ []
      → 1 ≤ p.buffer.capacity
      → let q = handle_all (disconnects ∷ (map publishes ms ++ (connects ∷ []))) p in
        (q.sent ≡ p.sent ++ (status true ∷ map telemetry (drop (length ms - p.buffer.capacity) ms)))
        × (q.buffer.items ≡ [])
        × (q.connected ≡ true)
  unfolding clear
  outage_lem p ms e c =
      let full : length p.buffer.items ≤ p.buffer.capacity = rw e (omega arith) in
      let kept : (extend ms p.buffer).items ≡ drop (length ms - p.buffer.capacity) ms =
        (extend_lem ms p.buffer c full).0
        ∙ ap (λ (old : List M). drop (length (old ++ ms) - p.buffer.capacity) (old ++ ms)) e in
      rw (outage_state p ms, kept) (refl, refl, refl)
