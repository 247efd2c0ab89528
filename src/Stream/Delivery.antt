-- ===== src/Stream/Delivery.antt =====
-- Who gets an event of the hub.
use ot_collector.Prelude.{
  ℕ, ◌+◌, ◌≤◌, ◌<◌, ◌≡◌, ◌≢◌, refl, ap, Bool, not, Option, none, some, List, [], ◌∷◌, ◌++◌, map,
  keep, length, length-append, All, ◌==◌, arith, if◌then◌else◌, Bool-cases, inl, inr, ltb,
}
use mathlib.Core.Option
use ot_collector.Event.{Event}
use ot_collector.Forwarder.Queue.{try_send}
use ot_collector.Stream.{Client, StreamHub, new_hub, subscribe, unsubscribe, offer, publish}

-- The calls that change the hub.
pub data Call : Type 0 where
  subscribing : Call
  unsubscribing : ℕ → Call
  publishing : Event → Call

unfoldable pub call : Call → StreamHub → StreamHub
call subscribing h = (subscribe h).0
call (unsubscribing id) h = unsubscribe id h
call (publishing evt) h = publish evt h

unfoldable pub calls : List Call → StreamHub → StreamHub
calls [] h = h
calls (c ∷ cs) h = calls cs (call c h)

-- The client with an id.
unfoldable pub client_of : ℕ → List Client → Option Client
client_of id [] = none
client_of id (c ∷ cs) = if c.id == id then some c else client_of id cs

-- What holds of one client: its id was given out, and its channel is within its 256 places.
pub record IsServed (next_id : ℕ) (c : Client) : Type 0 where
  pub known : c.id < next_id
  pub sized : c.channel.capacity ≡ 256
  pub bounded : length c.channel.pending ≤ 256

-- Ids are given out once.
abbrev pub AreDistinct : List Client → Type 0
AreDistinct [] = Unit
AreDistinct (c ∷ cs) = All (λ d. d.id ≢ c.id) cs × AreDistinct cs

pub record IsValid (h : StreamHub) : Type 0 where
  pub served : All (IsServed h.next_id) h.clients
  pub distinct : AreDistinct h.clients

offer-IsServed : (n : ℕ) (evt : Event) (c : Client) → IsServed n c → IsServed n (offer evt c)
unfolding offer try_send
offer-IsServed n evt c s = ground (arith, length-append c.channel.pending (evt ∷ []))

offer_id : (evt : Event) (c : Client) → (offer evt c).id ≡ c.id
unfolding offer
offer_id evt c = refl

later-IsServed : (n : ℕ) (cs : List Client) → All (IsServed n) cs → All (IsServed (n + 1)) cs
later-IsServed n [] _ = tt
later-IsServed n (c ∷ cs) (s, rest) = (
  record { known = omega (arith, s.known); sized = s.sized; bounded = s.bounded },
  later-IsServed n cs rest,
)

fresh : (n : ℕ) (cs : List Client) → All (IsServed n) cs → All (λ d. d.id ≢ n) cs
fresh n [] _ = tt
fresh n (c ∷ cs) (s, rest) = (omega (arith, s.known), fresh n cs rest)

map-IsServed :
    (n : ℕ) (evt : Event) (cs : List Client)
    → All (IsServed n) cs
    → All (IsServed n) (map (offer evt) cs)
map-IsServed n evt [] _ = tt
map-IsServed n evt (c ∷ cs) (s, rest) = (offer-IsServed n evt c s, map-IsServed n evt cs rest)

map-ne :
    (id : ℕ) (evt : Event) (cs : List Client)
    → All (λ d. d.id ≢ id) cs
    → All (λ d. d.id ≢ id) (map (offer evt) cs)
map-ne id evt [] _ = tt
map-ne id evt (c ∷ cs) (ne, rest) = (rw (offer_id evt c) ne, map-ne id evt cs rest)

map-AreDistinct :
    (evt : Event) (cs : List Client) → AreDistinct cs → AreDistinct (map (offer evt) cs)
map-AreDistinct evt [] _ = tt
map-AreDistinct evt (c ∷ cs) (ne, rest) =
    (rw (offer_id evt c) (map-ne c.id evt cs ne), map-AreDistinct evt cs rest)

All-keep {ℓ} :
    (P : Client → Type ℓ) (p : Client → Bool) (cs : List Client) → All P cs → All P (keep p cs)
All-keep P p [] _ = tt
All-keep P p (c ∷ cs) (h, rest) = elim (Bool-cases (p c)) [
  | inl kept ↦ rw kept (h, All-keep P p cs rest)
  | inr gone ↦ rw gone (All-keep P p cs rest)
]

keep-AreDistinct : (p : Client → Bool) (cs : List Client) → AreDistinct cs → AreDistinct (keep p cs)
keep-AreDistinct p [] _ = tt
keep-AreDistinct p (c ∷ cs) (ne, rest) = elim (Bool-cases (p c)) [
  | inl kept ↦ rw kept (All-keep (λ d. d.id ≢ c.id) p cs ne, keep-AreDistinct p cs rest)
  | inr gone ↦ rw gone (keep-AreDistinct p cs rest)
]

pub call-IsValid : (c : Call) (h : StreamHub) → IsValid h → IsValid (call c h)
unfolding call subscribe unsubscribe publish
call-IsValid subscribing h v = record {
  served = (
    record { known = omega arith; sized = refl; bounded = omega arith },
    later-IsServed h.next_id h.clients v.served,
  );
  distinct = (fresh h.next_id h.clients v.served, v.distinct);
}
call-IsValid (unsubscribing id) h v = record {
  served = All-keep (IsServed h.next_id) (λ c. not (c.id == id)) h.clients v.served;
  distinct = keep-AreDistinct (λ c. not (c.id == id)) h.clients v.distinct;
}
call-IsValid (publishing evt) h v = record {
  served = map-IsServed h.next_id evt h.clients v.served;
  distinct = map-AreDistinct evt h.clients v.distinct;
}

calls-IsValid : (cs : List Call) (h : StreamHub) → IsValid h → IsValid (calls cs h)
unfolding calls
calls-IsValid [] h v = v
calls-IsValid (c ∷ cs) h v = calls-IsValid cs (call c h) (call-IsValid c h v)

pub new_hub-IsValid : IsValid new_hub
unfolding new_hub
new_hub-IsValid = record { served = tt; distinct = tt }

-- Whatever clients come and go and whatever is published, no two clients share an id, every id
-- was given out by Subscribe, and no client's channel holds more than 256 events.
pub calls-new_hub-IsValid : (cs : List Call) → IsValid (calls cs new_hub)
calls-new_hub-IsValid cs = calls-IsValid cs _ new_hub-IsValid

-- A client that has been given an event: it waits behind the others, if there is room.
pub delivered : Event → Client → Client
delivered evt c =
    if ltb (length c.channel.pending) c.channel.capacity
    then record c { channel = record c.channel { pending = c.channel.pending ++ evt ∷ [] } }
    else c

offer-delivered : (evt : Event) (c : Client) → offer evt c ≡ delivered evt c
unfolding offer try_send delivered
offer-delivered evt c = ground arith

client_of-map :
    (evt : Event) (id : ℕ) (cs : List Client)
    → client_of id (map (offer evt) cs) ≡ Option.map (delivered evt) (client_of id cs)
unfolding client_of offer
client_of-map evt id [] = refl
client_of-map evt id (c ∷ cs) = elim (Bool-cases (c.id == id)) [
  | inl here ↦ rw (offer_id evt c, here) (ap some (offer-delivered evt c))
  | inr later ↦ rw (offer_id evt c, later) (client_of-map evt id cs)
]

-- Publishing puts the event behind what waits in the channel of each client that has room, and
-- leaves the channel of a client that is full as it is, whatever the other channels hold.
pub client_of-publish :
    (evt : Event) (id : ℕ) (h : StreamHub)
    → client_of id (publish evt h).clients ≡ Option.map (delivered evt) (client_of id h.clients)
unfolding publish
client_of-publish evt id h = client_of-map evt id h.clients
