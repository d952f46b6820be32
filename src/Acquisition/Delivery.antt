-- ===== src/Acquisition/Delivery.antt =====
-- What the publisher of edge/acquisition/mqtt_publisher.py has sent and still holds, over any
-- sequence of calls.
use shtapm.Base.{
  ◌-◌, ◌<◌, ◌≡◌, refl, sym, ap, ◌∙◌, true, List, [], ◌∷◌, ◌++◌, map, length, drop, arith,
  append-nil, append_assoc, length-append, Bool-cases, ◌⊎◌, inl, inr,
}
use shtapm.Acquisition.RingBuffer.{RingBuffer, push, clear}
use shtapm.Acquisition.Publisher.{
  Publisher, Sent, telemetry, status, Event, publishes, connects, disconnects, send, publish_live,
  drain, on_connect, on_disconnect, publish, handle, handle_all,
}
use shtapm.Acquisition.Resume.{publish_pending_lem}

module _ {M : Type 0} where
  unfoldable pub delivered : List (Sent M) → List M
  delivered [] = []
  delivered (status b ∷ rest) = delivered rest
  delivered (telemetry m ∷ rest) = m ∷ delivered rest

  -- The messages that the calls publish, in their order.
  unfoldable pub published : List (Event M) → List M
  published [] = []
  published (connects ∷ rest) = published rest
  published (disconnects ∷ rest) = published rest
  published (publishes m ∷ rest) = m ∷ published rest

  -- Every message finds a connection or room in the buffer.
  unfoldable pub HasRoom : List (Event M) → Publisher M → Type 0
  HasRoom [] p = Unit
  HasRoom (connects ∷ rest) p = HasRoom rest (on_connect p)
  HasRoom (disconnects ∷ rest) p = HasRoom rest (on_disconnect p)
  HasRoom (publishes m ∷ rest) p =
      ((p.connected ≡ true) ⊎ (length p.buffer.items < p.buffer.capacity))
      × HasRoom rest (publish m p)

  -- The messages that a publisher has sent or holds.
  abbrev pub held : Publisher M → List M
  held p = delivered p.sent ++ p.buffer.items

  delivered-append : (xs ys : List (Sent M)) → delivered (xs ++ ys) ≡ delivered xs ++ delivered ys
  unfolding delivered
  delivered-append [] ys = refl
  delivered-append (status b ∷ rest) ys = delivered-append rest ys
  delivered-append (telemetry m ∷ rest) ys = ap (λ l. m ∷ l) (delivered-append rest ys)

  delivered-telemetry : (ms : List M) → delivered (map telemetry ms) ≡ ms
  unfolding delivered
  delivered-telemetry [] = refl
  delivered-telemetry (m ∷ rest) = ap (λ l. m ∷ l) (delivered-telemetry rest)

  push-items :
      (m : M) (b : RingBuffer M)
      → length b.items < b.capacity
      → (push m b).items ≡ b.items ++ (m ∷ [])
  unfolding push
  push-items m b h =
      let none_lost : length (b.items ++ (m ∷ [])) - b.capacity ≡ 0 =
        omega (arith, h, length-append b.items (m ∷ [])) in
      ap (λ k. drop k (b.items ++ (m ∷ []))) none_lost

  drain-held :
      (p : Publisher M)
      → (held (drain p) ≡ held p)
        × ((drain p).buffer.items ≡ [])
        × ((drain p).connected ≡ p.connected)
  unfolding drain clear
  drain-held p = rw (publish_pending_lem p.buffer.items (record p { buffer = clear p.buffer })) (
    append-nil (delivered (p.sent ++ map telemetry p.buffer.items))
        ∙ delivered-append p.sent (map telemetry p.buffer.items)
        ∙ ap (λ l. delivered p.sent ++ l) (delivered-telemetry p.buffer.items),
    refl,
    refl,
  )

  -- A connected publisher has an empty buffer.
  abbrev pub IsCaughtUp : Publisher M → Type 0
  IsCaughtUp p = p.connected ≡ true → p.buffer.items ≡ []

  connect-held : (p : Publisher M) → (held (on_connect p) ≡ held p) × IsCaughtUp (on_connect p)
  unfolding on_connect send delivered
  connect-held p =
      let online : Publisher M = record p {
        connected = true;
        sent = p.sent ++ (status true ∷ []);
      } in
      let (same, empty, _) = drain-held online in
      (
        same
            ∙ ap (λ l. l ++ p.buffer.items)
                (delivered-append p.sent (status true ∷ []) ∙ append-nil (delivered p.sent)),
        λ c. empty,
      )

  publish-held :
      (m : M) (p : Publisher M)
      → IsCaughtUp p
      → (p.connected ≡ true) ⊎ (length p.buffer.items < p.buffer.capacity)
      → (held (publish m p) ≡ held p ++ (m ∷ [])) × IsCaughtUp (publish m p)
  unfolding publish publish_live send delivered
  publish-held m p caught room = elim (Bool-cases p.connected) [
    | inl on ↦
        rw (on, caught on)
          (
            append-nil (delivered (p.sent ++ (telemetry m ∷ [])))
                ∙ delivered-append p.sent (telemetry m ∷ [])
                ∙ ap (λ l. l ++ (m ∷ [])) (sym (append-nil (delivered p.sent))),
            λ c. refl,
          )
    | inr off ↦
        let free : length p.buffer.items < p.buffer.capacity = elim room [
          | inl on ↦ ground arith
          | inr r ↦ r
        ] in
        rw off (
          ap (λ l. delivered p.sent ++ l) (push-items m p.buffer free)
              ∙ sym (append_assoc (delivered p.sent) p.buffer.items (m ∷ [])),
          λ c. cc,
        )
  ]

  disconnected : (p : Publisher M) → IsCaughtUp (on_disconnect p)
  unfolding on_disconnect
  disconnected p c = cc

  -- If a publisher that is caught up handles any calls in which every message finds a connection
  -- or room in the buffer, then what it has sent and still holds is what it had before and then
  -- the published messages: none is lost, repeated or out of order. While it is connected, it
  -- holds none, so all of them are sent.
  pub handle_all-held :
      (es : List (Event M)) (p : Publisher M)
      → IsCaughtUp p
      → HasRoom es p
      → (held (handle_all es p) ≡ held p ++ published es) × IsCaughtUp (handle_all es p)
  unfolding handle_all handle HasRoom published on_disconnect
  handle_all-held [] p caught room = (sym (append-nil (held p)), caught)
  handle_all-held (connects ∷ rest) p caught room =
      let (same, caught') = connect-held p in
      let (all, end) = handle_all-held rest (on_connect p) caught' room in
      (all ∙ ap (λ l. l ++ published rest) same, end)
  handle_all-held (disconnects ∷ rest) p caught room =
      handle_all-held rest (on_disconnect p) (λ c. disconnected p c) room
  handle_all-held (publishes m ∷ rest) p caught (now, later) =
      let (same, caught') = publish-held m p caught now in
      let (all, end) = handle_all-held rest (publish m p) caught' later in
      (
        all ∙ ap (λ l. l ++ published rest) same ∙ append_assoc (held p) (m ∷ []) (published rest),
        end,
      )
