-- ===== src/Sources.antt =====
-- internal/sources/sources.go: which asset an address stands for. The resolver reads the source
-- store; none is a resolver without a store.
pub mod Agreement
use Prim.Native.String
use ot_collector.Prelude.{
  String, ◌&&◌, ◌||◌, Option, none, some, List, [], ◌∷◌, str_eq, if◌then◌else◌, Dict, lookup,
  insert,
}
use ot_collector.GoText.{to_lower, contains}
use ot_collector.Config.Sources.{SourceConfig}

pub record SourceInfo : Type 0 where
  pub asset_name : String
  pub source_type : String
  pub asset_ip : String

abbrev pub info : String → String → String → SourceInfo
info name type ip = record { asset_name = name; source_type = type; asset_ip = ip }

abbrev asset : String → String → String → String × SourceInfo
asset ip name type = (ip, info name type ip)

unfoldable pub asset_by_ip : Dict SourceInfo
asset_by_ip =
    asset "192.168.1.20" "labshock-plc1-1" "plc"
    ∷ asset "192.168.1.21" "labshock-plc2-1" "plc"
    ∷ asset "192.168.1.22" "labshock-plc3-1" "plc"
    ∷ asset "192.168.1.23" "labshock-plc4-1" "plc"
    ∷ asset "192.168.1.24" "labshock-plc5-1" "plc"
    ∷ asset "192.168.1.60" "labshock_scada" "scada"
    ∷ asset "192.168.1.62" "powergrid_opcua_server" "opcua"
    ∷ asset "192.168.1.50" "labshock-ews-1" "ews"
    ∷ asset "192.168.1.254" "ot_firewall" "firewall"
    ∷ []

-- The first enabled source with the address.
unfoldable pub source_at : String → List SourceConfig → Option SourceConfig
source_at ip [] = none
source_at ip (s ∷ ss) = if s.enabled && str_eq s.ip ip then some s else source_at ip ss

-- strings.ToLower(host + " " + app + " " + message)
abbrev hints : String → String → String → String
hints host app message =
    to_lower (String.◌++◌ host (String.◌++◌ " " (String.◌++◌ app (String.◌++◌ " " message))))

-- The guess from the words of a message.
unfoldable pub guess : String → String → SourceInfo
guess ip h =
    if contains h "fuxa"
    then info "labshock_scada" "scada" ip
    else if contains h "openplc"
    then info "unknown" "plc" ip
    else if contains h "opcua"
        || contains h "powergrid_opcua_server"
        || contains h "powergrid-opcua"
    then info "powergrid_opcua_server" "opcua" ip
    else info "unknown" "unknown" ip

-- resolveFallback
unfoldable pub resolve_fallback : String → String → String → String → SourceInfo
resolve_fallback ip host app message = elim (lookup ip asset_by_ip) [
  | some s ↦ s
  | none ↦ guess ip (hints host app message)
]

-- Resolve
unfoldable pub resolve : Option (List SourceConfig) → String → String → String → String → SourceInfo
resolve none ip host app message = resolve_fallback ip host app message
resolve (some store) ip host app message = elim (source_at ip store) [
  | some src ↦ info src.name src.type src.ip
  | none ↦ elim (lookup ip asset_by_ip) [ some s ↦ s | none ↦ guess ip (hints host app message) ]
]

-- The loop of Known: a later source with the same address takes the place of an earlier one.
unfoldable pub known_from : List SourceConfig → Dict SourceInfo → Dict SourceInfo
known_from [] out = out
known_from (s ∷ ss) out = known_from ss (insert s.ip (info s.name s.type s.ip) out)

-- Known
unfoldable pub known : Option (List SourceConfig) → Dict SourceInfo
known none = asset_by_ip
known (some store) = known_from store []
