-- ===== src/Stream.antt =====
-- internal/api/stream.go: the hub that hands stored events to the live clients. A client's channel
-- is bounded, and Publish never waits: a full channel misses the event.
pub mod Delivery
use ot_collector.Prelude.{
  ℕ, ◌+◌, Bool, true, false, not, List, [], ◌∷◌, map, keep, ◌==◌, if◌then◌else◌,
}
use ot_collector.Event.{Event}
use ot_collector.Forwarder.Queue.{Channel, try_send}

pub record Client : Type 0 where
  pub id : ℕ
  pub channel : Channel Event

pub record StreamHub : Type 0 where
  pub next_id : ℕ
  pub clients : List Client

-- NewStreamHub
unfoldable pub new_hub : StreamHub
new_hub = record { next_id = 0; clients = [] }

-- Subscribe
unfoldable pub subscribe : StreamHub → StreamHub × ℕ
subscribe h = (
  record {
    next_id = h.next_id + 1;
    clients =
        record { id = h.next_id; channel = record { capacity = 256; pending = [] } } ∷ h.clients;
  },
  h.next_id,
)

-- Unsubscribe
unfoldable pub unsubscribe : ℕ → StreamHub → StreamHub
unsubscribe id h = record h { clients = keep (λ c. not (c.id == id)) h.clients }

-- One round of Publish.
unfoldable pub offer : Event → Client → Client
offer evt c = record c { channel = (try_send evt c.channel).0 }

-- Publish
unfoldable pub publish : Event → StreamHub → StreamHub
publish evt h = record h { clients = map (offer evt) h.clients }
