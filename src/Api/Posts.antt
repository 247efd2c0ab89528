-- ===== src/Api/Posts.antt =====
-- What the answer to posted events promises.
use ot_collector.Prelude.{
  suc, ◌≡◌, refl, String, false, true, List, [], ◌∷◌, arith, Bool, str_eq, length, All,
  if◌then◌else◌, ap, ◌∙◌,
}
use ot_collector.Event.{Event, or_default, make_tags, set_tag, or_default-ne}
use ot_collector.Filter.{Decision}
use ot_collector.Processor.{Processor, World, baseline, enrich}
use ot_collector.Processor.Ingest.{enriched}
use ot_collector.Storage
use ot_collector.Api.{Api, Posted, normalize_posted_event, post_events}

make_tags-id : (e : Event) → (make_tags e).id ≡ e.id
unfolding make_tags
make_tags-id e = ground arith

set_tag-id : (k v : String) (e : Event) → (set_tag k v e).id ≡ e.id
unfolding set_tag
set_tag-id k v e = ground arith

set_tag_if-id : (b : Bool) (k v : String) (e : Event) → (if b then set_tag k v e else e).id ≡ e.id
set_tag_if-id true k v e = set_tag-id k v e
set_tag_if-id false k v e = refl

pub enrich-id :
    (path : String) (d : Decision) (fw : Bool) (e : Event) → (enrich path d fw e).id ≡ e.id
unfolding enrich
enrich-id path d fw e = simp (set_tag_if-id, set_tag-id)

baseline-id :
    (w : World) (zone : String) (e : Event) → str_eq e.id "" ≡ false → (baseline w zone e).id ≡ e.id
unfolding baseline or_default
baseline-id w zone e h = rw make_tags-id (rw h)

-- The id that the answer to a post gives for an event is the id under which the event is stored
-- and forwarded, whatever the event held, if the generated ids are not empty.
pub posted_id :
    (x : Posted) (zone path : String) (p : Processor)
    → str_eq x.new_id "" ≡ false
    → (enriched x.world (normalize_posted_event x.now x.new_id zone x.evt) path p).id
      ≡ (normalize_posted_event x.now x.new_id zone x.evt).id
unfolding enriched normalize_posted_event
posted_id x zone path p some_id =
    enrich-id path _ _ _
    ∙ baseline-id x.world p.zone _ (rw make_tags-id (or_default-ne x.evt.id x.new_id some_id))

-- The answer to a batch has one id for each event, none of them empty.
pub post_events_ids :
    (codec : Storage.Codec) (minute_of : String → String) (xs : List Posted) (a : Api)
    → All (λ x. str_eq x.new_id "" ≡ false) xs
    → (length (post_events codec minute_of xs a).1 ≡ length xs)
      × All (λ id. str_eq id "" ≡ false) (post_events codec minute_of xs a).1
unfolding post_events normalize_posted_event
post_events_ids codec minute_of [] a _ = (refl, tt)
post_events_ids codec minute_of (x ∷ xs) a (h, hs) =
    let (same, ids) = post_events_ids codec minute_of xs _ hs in
    (ap suc same, (rw make_tags-id (or_default-ne x.evt.id x.new_id h), ids))
