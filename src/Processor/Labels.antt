-- ===== src/Processor/Labels.antt =====
-- The texts that cmd/ot-collector/main.go gives to source types and decisions.
use ot_collector.Prelude.{String, Bool, ◌&&◌, ◌||◌, not, str_eq, if◌then◌else◌}
use ot_collector.GoText.{to_lower, trim_space, replace_byte}
use ot_collector.Filter.{Decision}

-- normalizeSourceType
unfoldable pub normalize_source_type : String → String
normalize_source_type s =
    let t = replace_byte "-" "_" (to_lower (trim_space s)) in
    if str_eq t "opnsense"
    then "firewall"
    else if str_eq t "fuxa"
    then "scada"
    else if str_eq t "fuxa_gds_client" || str_eq t "scada_gds" || str_eq t "scada_gds_helper"
    then "scada_gds_client"
    else if str_eq t "openplc"
    then "plc"
    else if str_eq t "nozomi"
    then "ids"
    else t

-- siemIndexHint
unfoldable pub siem_index_hint : String → String
siem_index_hint source_type = "ot_security"

-- splunkSourcetype
unfoldable pub splunk_sourcetype : String → String
splunk_sourcetype t =
    if str_eq t "firewall"
    then "labshock:net:firewall"
    else if str_eq t "opcua"
    then "labshock:ot:opcua"
    else if str_eq t "gds_agent"
    then "labshock:ot:gds"
    else if str_eq t "scada_gds_client"
    then "labshock:ot:scada:gds"
    else if str_eq t "scada"
    then "labshock:ot:scada"
    else if str_eq t "plc"
    then "labshock:ot:plc"
    else if str_eq t "ids"
    then "labshock:ot:ids"
    else if str_eq t "ews"
    then "labshock:ot:ews"
    else if str_eq t "vault"
    then "labshock:ot:vault"
    else "labshock:ot:unknown"

-- decisionLabel
unfoldable pub decision_label : Decision → Bool → String
decision_label d will_forward =
    if d.drop
    then "drop"
    else if d.store && will_forward
    then "store_and_forward"
    else if not d.store && will_forward
    then "forward_only"
    else if d.store
    then (if d.sampled then "sample" else "store_only")
    else "store_only"

-- decisionHint
unfoldable pub decision_hint : Decision → String
decision_hint d =
    if d.drop
    then "drop"
    else if d.store && d.forward
    then "store_forward"
    else if d.store
    then "store_only"
    else if d.forward
    then "forward_only"
    else "store_only"
