-- ===== src/Normalizers/Apply/Dispatch.antt =====
-- The normalizers of the sources as one: at most one of them acts on an event.
use ot_collector.Prelude.{
  ◌≡◌, refl, ap, ◌∙◌, String, false, str_eq, eq_iff, if◌then◌else◌, Bool-cases, inl, inr,
}
use ot_collector.Event.{Event}
use ot_collector.Normalizers.Cases.{when_source}
use ot_collector.Normalizers.Firewall.{apply_firewall}
use ot_collector.Normalizers.Plc.{apply_plc}
use ot_collector.Normalizers.Scada.{apply_scada}
use ot_collector.Normalizers.Ews.{apply_ews, apply_fuxa_gds_client}
use ot_collector.Normalizers.Opcua.{apply_opcua}
use ot_collector.Normalizers.Gds.{apply_gds_agent}
use ot_collector.Normalizers.Apply.{Regexps, apply_sources}
use ot_collector.Normalizers.Apply.Kept.{Origin, Kept}
use ot_collector.Normalizers.Apply.Words.{
  Kept-apply_firewall, Kept-apply_plc, Kept-apply_ews, Kept-apply_opcua, Kept-apply_gds_agent,
}
use ot_collector.Normalizers.Apply.Lines.{Kept-apply_scada}

-- `f` leaves alone an event of another source than `t`.
abbrev Skips : (Event → Event) → String → Type 0
Skips f t = (e : Event) (s : String) → e.source_type ≡ s → str_eq s t ≡ false → f e ≡ e

when_source-Skips : (t : String) (body : Event → Event) → Skips (when_source t body) t
unfolding when_source
when_source-Skips t body e s h other = rw (h, other) refl

source_of : {e f : Event} → Kept e f → f.source_type ≡ e.source_type
source_of k = ap (λ (o : Origin). o.source_type) k.same

last_dispatch :
    (f : Event → Event) (e : Event)
    → Skips f "scada_gds_client"
    → f e ≡ (if str_eq e.source_type "scada_gds_client" then f e else e)
last_dispatch f e skips = elim (Bool-cases (str_eq e.source_type "scada_gds_client")) [
  | inl is ↦ rw is refl
  | inr c ↦ rw (c, skips e _ refl c) refl
]

module _ (re : Regexps) where
  -- The normalizer of a source type.
  abbrev pub normalizer_of : String → Event → Event
  normalizer_of t evt =
      if str_eq t "firewall"
      then apply_firewall evt
      else if str_eq t "plc"
      then apply_plc re.strip re.user_of evt
      else if str_eq t "scada"
      then apply_scada re.scada re.strip evt
      else if str_eq t "ews"
      then apply_ews re.strip evt
      else if str_eq t "opcua"
      then apply_opcua re.strip evt
      else if str_eq t "gds_agent"
      then apply_gds_agent re.strip evt
      else if str_eq t "scada_gds_client"
      then apply_fuxa_gds_client re.strip evt
      else evt

  firewall : Skips apply_firewall "firewall"
  unfolding apply_firewall
  firewall = when_source-Skips "firewall" _

  plc : Skips (apply_plc re.strip re.user_of) "plc"
  unfolding apply_plc
  plc e s h other = rw (h, other) refl

  scada : Skips (apply_scada re.scada re.strip) "scada"
  unfolding apply_scada
  scada = when_source-Skips "scada" _

  ews : Skips (apply_ews re.strip) "ews"
  unfolding apply_ews
  ews = when_source-Skips "ews" _

  opcua : Skips (apply_opcua re.strip) "opcua"
  unfolding apply_opcua
  opcua = when_source-Skips "opcua" _

  gds : Skips (apply_gds_agent re.strip) "gds_agent"
  unfolding apply_gds_agent
  gds = when_source-Skips "gds_agent" _

  client : Skips (apply_fuxa_gds_client re.strip) "scada_gds_client"
  unfolding apply_fuxa_gds_client
  client = when_source-Skips "scada_gds_client" _

  -- The normalizers from one on, for an event that is of none of their sources.
  after_ews :
      (e : Event) (s : String)
      → e.source_type ≡ s
      → str_eq s "opcua" ≡ false
      → str_eq s "gds_agent" ≡ false
      → str_eq s "scada_gds_client" ≡ false
      → apply_fuxa_gds_client re.strip (apply_gds_agent re.strip (apply_opcua re.strip e)) ≡ e
  after_ews e s h o g c = rw (opcua e s h o, gds e s h g, client e s h c) refl

  after_plc :
      (e : Event) (s : String)
      → e.source_type ≡ s
      → str_eq s "scada" ≡ false
      → str_eq s "ews" ≡ false
      → str_eq s "opcua" ≡ false
      → str_eq s "gds_agent" ≡ false
      → str_eq s "scada_gds_client" ≡ false
      → apply_fuxa_gds_client re.strip (
          apply_gds_agent re.strip
            (apply_opcua re.strip (apply_ews re.strip (apply_scada re.scada re.strip e))))
        ≡ e
  after_plc e s h a w o g c = rw (scada e s h a, ews e s h w) (after_ews e s h o g c)

  -- The sources after the PLCs.
  after_plc_dispatch :
      (e : Event)
      → str_eq e.source_type "firewall" ≡ false
      → str_eq e.source_type "plc" ≡ false
      → apply_sources re e ≡ normalizer_of e.source_type e
  unfolding apply_sources
  after_plc_dispatch e f p = elim (Bool-cases (str_eq e.source_type "scada")) [
    | inl is ↦
        let s = (eq_iff e.source_type "scada").0 is in
        let y = source_of (Kept-apply_scada re.scada re.strip e) ∙ s in
        rw
          (
            firewall e _ s refl,
            plc e _ s refl,
            f,
            p,
            is,
            ews (apply_scada re.scada re.strip e) _ y refl,
          )
          (after_ews _ _ y refl refl refl)
    | inr a ↦ elim (Bool-cases (str_eq e.source_type "ews")) [
      | inl is ↦
          let s = (eq_iff e.source_type "ews").0 is in
          let y = source_of (Kept-apply_ews re.strip e) ∙ s in
          rw (firewall e _ s refl, plc e _ s refl, scada e _ s refl, f, p, a, is)
            (after_ews _ _ y refl refl refl)
      | inr w ↦ elim (Bool-cases (str_eq e.source_type "opcua")) [
        | inl is ↦
            let s = (eq_iff e.source_type "opcua").0 is in
            let y = source_of (Kept-apply_opcua re.strip e) ∙ s in
            rw
              (
                firewall e _ s refl,
                plc e _ s refl,
                scada e _ s refl,
                ews e _ s refl,
                f,
                p,
                a,
                w,
                is,
                gds (apply_opcua re.strip e) _ y refl,
                client (apply_opcua re.strip e) _ y refl,
              )
              refl
        | inr o ↦ elim (Bool-cases (str_eq e.source_type "gds_agent")) [
          | inl is ↦
              let s = (eq_iff e.source_type "gds_agent").0 is in
              let y = source_of (Kept-apply_gds_agent re.strip e) ∙ s in
              rw
                (
                  firewall e _ s refl,
                  plc e _ s refl,
                  scada e _ s refl,
                  ews e _ s refl,
                  opcua e _ s refl,
                  f,
                  p,
                  a,
                  w,
                  o,
                  is,
                  client (apply_gds_agent re.strip e) _ y refl,
                )
                refl
          | inr g ↦
              rw
                (
                  firewall e _ refl f,
                  plc e _ refl p,
                  scada e _ refl a,
                  ews e _ refl w,
                  opcua e _ refl o,
                  gds e _ refl g,
                  f,
                  p,
                  a,
                  w,
                  o,
                  g,
                )
                (last_dispatch (apply_fuxa_gds_client re.strip) e client)
        ]
      ]
    ]
  ]

  -- The normalizers of all sources do to an event what the one of its source type does, and
  -- nothing to an event of no known source type.
  pub apply_sources-normalizer_of : (e : Event) → apply_sources re e ≡ normalizer_of e.source_type e
  unfolding apply_sources
  apply_sources-normalizer_of e = elim (Bool-cases (str_eq e.source_type "firewall")) [
    | inl is ↦
        let s = (eq_iff e.source_type "firewall").0 is in
        let y = source_of (Kept-apply_firewall e) ∙ s in
        rw (plc (apply_firewall e) _ y refl) (rw is (after_plc _ _ y refl refl refl refl refl))
    | inr not_firewall ↦ elim (Bool-cases (str_eq e.source_type "plc")) [
      | inl is ↦
          let s = (eq_iff e.source_type "plc").0 is in
          let y = source_of (Kept-apply_plc re.strip re.user_of e) ∙ s in
          rw (firewall e _ s refl, is, not_firewall) (after_plc _ _ y refl refl refl refl refl)
      | inr not_plc ↦ after_plc_dispatch e not_firewall not_plc
    ]
  ]
