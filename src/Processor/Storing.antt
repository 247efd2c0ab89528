-- ===== src/Processor/Storing.antt =====
-- What storing and showing an event that is decided does.
use ot_collector.Prelude.{
  ◌≡◌, refl, String, Bool, true, false, ◌&&◌, Option, none, some, Bool-cases, Option-cases, inl,
  inr, if◌then◌else◌,
}
use ot_collector.Event.{Event}
use ot_collector.Filter.{Decision, unix}
use ot_collector.Storage
use ot_collector.Storage.{append}
use ot_collector.Stats.{add_stored, add_dropped}
use ot_collector.Stats.Totals.{IsSplit, stored, dropped, call, call-IsSplit}
use ot_collector.Stream.{publish}
use ot_collector.Processor.{Processor, World, drop_event, store_event}

abbrev pub is_none : {A : Type 0} → Option A → Bool
is_none none = true
is_none (some _) = false

-- What storing and showing does with an event already decided.
pub record IsStored (codec : Storage.Codec) (w : World) (e : Event) (d : Decision) (p q : Processor)
    : Type 0 where
  pub file_after : q.file ≡ (if d.store then (append codec w.disk e p.file).0 else p.file)
  pub hub_after : q.stream_hub ≡ (
      if d.store && (is_none (append codec w.disk e p.file).1 && d.show)
      then publish e p.stream_hub
      else p.stream_hub)
  pub queue_after : q.forward_queue ≡ p.forward_queue
  pub split_after : IsSplit p.stats → IsSplit q.stats

module _ (codec : Storage.Codec) (minute_of : String → String) (w : World) (e : Event)
    (d : Decision) (p : Processor) where
  dropped-IsSplit :
      IsSplit p.stats
      → IsSplit (add_dropped (unix w.counted_at) d.matched_rule_id d.reason d.sampled p.stats)
  unfolding call
  dropped-IsSplit h =
      call-IsSplit (dropped (unix w.counted_at) d.matched_rule_id d.reason d.sampled) p.stats h

  stored-IsSplit :
      IsSplit p.stats → IsSplit (add_stored (unix w.counted_at) (minute_of e.received_at) e p.stats)
  unfolding call
  stored-IsSplit h = call-IsSplit (stored (unix w.counted_at) (minute_of e.received_at) e) p.stats h

  pub drop_event-IsStored : IsStored codec w e d p (drop_event codec minute_of w e d p)
  unfolding drop_event
  drop_event-IsStored = elim (Bool-cases d.store) [
    | inr off ↦ rw off (record {
      file_after = refl;
      hub_after = refl;
      queue_after = refl;
      split_after = dropped-IsSplit;
    })
    | inl on ↦ elim (Option-cases (append codec w.disk e p.file).1) [
      | inr (er, bad) ↦
          rw (on, bad)
            (record {
              file_after = refl;
              hub_after = rw bad;
              queue_after = refl;
              split_after = dropped-IsSplit;
            })
      | inl ok ↦ elim (Bool-cases d.show) [
        | inl shown ↦
            rw (on, ok, shown)
              (record {
                file_after = refl;
                hub_after = rw ok;
                queue_after = refl;
                split_after = dropped-IsSplit;
              })
        | inr hidden ↦
            rw (on, ok, hidden)
              (record {
                file_after = refl;
                hub_after = rw ok;
                queue_after = refl;
                split_after = dropped-IsSplit;
              })
      ]
    ]
  ]

  pub store_event-IsStored : IsStored codec w e d p (store_event codec minute_of w e d p)
  unfolding store_event
  store_event-IsStored = elim (Bool-cases d.store) [
    | inr off ↦
        rw off
          (record { file_after = refl; hub_after = refl; queue_after = refl; split_after = λ h. h })
    | inl on ↦ elim (Option-cases (append codec w.disk e p.file).1) [
      | inr (er, bad) ↦
          rw (on, bad)
            (record {
              file_after = refl;
              hub_after = rw bad;
              queue_after = refl;
              split_after = λ h. h;
            })
      | inl ok ↦ elim (Bool-cases d.show) [
        | inl shown ↦
            rw (on, ok, shown)
              (record {
                file_after = refl;
                hub_after = rw ok;
                queue_after = refl;
                split_after = stored-IsSplit;
              })
        | inr hidden ↦
            rw (on, ok, hidden)
              (record {
                file_after = refl;
                hub_after = rw ok;
                queue_after = refl;
                split_after = stored-IsSplit;
              })
      ]
    ]
  ]
