-- ===== src/Collector/Received.antt =====
-- The hub after a client has received an event.
use ot_collector.Prelude.{
  ℕ, ◌≢◌, ◌≤◌, List, [], ◌∷◌, Bool-cases, inl, inr, All, length, ◌==◌, arith,
}
use ot_collector.Event.{Event}
use ot_collector.Stream.{Client, StreamHub}
use ot_collector.Stream.Delivery.{IsValid, IsServed, AreDistinct}
use ot_collector.Api.Server.{receive_first}

-- What is left of a channel.
abbrev after_first : List Event → List Event
after_first events = elim events [ [] ↦ [] | e ∷ es ↦ es ]

fewer : (events : List Event) → length (after_first events) ≤ length events
fewer [] = omega arith
fewer (e ∷ es) = omega arith

received-IsServed :
    (n : ℕ) (c : Client)
    → IsServed n c
    → IsServed n
        (record c { channel = record c.channel { pending = after_first c.channel.pending } })
received-IsServed n c s = record {
  known = s.known;
  sized = s.sized;
  bounded = omega (arith, s.bounded, fewer c.channel.pending);
}

module _ (id : ℕ) where
  receive_first-IsServed :
      (n : ℕ) (cs : List Client) → All (IsServed n) cs → All (IsServed n) (receive_first id cs)
  unfolding receive_first
  receive_first-IsServed n [] _ = tt
  receive_first-IsServed n (c ∷ cs) (s, rest) = elim (Bool-cases (c.id == id)) [
    | inl e ↦ rw e (received-IsServed n c s, rest)
    | inr e ↦ rw e (s, receive_first-IsServed n cs rest)
  ]

  receive_first-ne :
      (other : ℕ) (cs : List Client)
      → All (λ d. d.id ≢ other) cs
      → All (λ d. d.id ≢ other) (receive_first id cs)
  unfolding receive_first
  receive_first-ne other [] _ = tt
  receive_first-ne other (c ∷ cs) (ne, rest) = elim (Bool-cases (c.id == id)) [
    | inl e ↦ rw e (ne, rest)
    | inr e ↦ rw e (ne, receive_first-ne other cs rest)
  ]

  receive_first-AreDistinct :
      (cs : List Client) → AreDistinct cs → AreDistinct (receive_first id cs)
  unfolding receive_first
  receive_first-AreDistinct [] _ = tt
  receive_first-AreDistinct (c ∷ cs) (ne, rest) = elim (Bool-cases (c.id == id)) [
    | inl e ↦ rw e (ne, rest)
    | inr e ↦ rw e (receive_first-ne c.id cs ne, receive_first-AreDistinct cs rest)
  ]

  pub receive_first-IsValid :
      (h : StreamHub) → IsValid h → IsValid (record h { clients = receive_first id h.clients })
  receive_first-IsValid h v = record {
    served = receive_first-IsServed h.next_id h.clients v.served;
    distinct = receive_first-AreDistinct h.clients v.distinct;
  }
