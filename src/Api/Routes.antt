-- ===== src/Api/Routes.antt =====
-- The routing table of internal/api/server.go: the patterns that Run hands to http.ServeMux, and which
-- of them ServeMux takes for the path of a request; `is_clean` tells the paths for which it does not
-- answer with a redirect to the path without empty, "." and ".." elements.
use Prim.Native.String
use Prim.Native.String.{len}
pub mod Below
use Prim.Native.Char.{code}
use ot_collector.Prelude.{
  ◌≡◌, refl, String, Bool, true, false, ◌&&◌, ◌||◌, not, Option, none, some, List, [], ◌∷◌, str_eq,
  if◌then◌else◌, leb, ◌==◌,
}
use ot_collector.GoText.{has_prefix}

-- The handlers that are registered; web is the file server.
pub data Route : Type 0 where
  health events event_stream storage_repair sources stats stats_summary : Route
  stats_timeline filter_config config_sources config_source_by_id config_rules : Route
  config_rule_by_id config_rules_test config_forwarding forwarding_test : Route
  forwarding_test_pipeline forwarding_reset_queue test_event web : Route

-- The calls of HandleFunc in Run, and that of Handle; the files of the web interface are embedded.
unfoldable pub patterns : List (String × Route)
patterns =
    ("/health", health)
    ∷ ("/events", events)
    ∷ ("/events/stream", event_stream)
    ∷ ("/storage/repair", storage_repair)
    ∷ ("/sources", sources)
    ∷ ("/stats", stats)
    ∷ ("/stats/summary", stats_summary)
    ∷ ("/stats/timeline", stats_timeline)
    ∷ ("/filter/config", filter_config)
    ∷ ("/config/sources", config_sources)
    ∷ ("/config/sources/", config_source_by_id)
    ∷ ("/config/rules", config_rules)
    ∷ ("/config/rules/", config_rule_by_id)
    ∷ ("/config/rules/test", config_rules_test)
    ∷ ("/config/forwarding", config_forwarding)
    ∷ ("/forwarding/test", forwarding_test)
    ∷ ("/forwarding/test-direct", forwarding_test)
    ∷ ("/forwarding/test-pipeline", forwarding_test_pipeline)
    ∷ ("/forwarding/reset-queue", forwarding_reset_queue)
    ∷ ("/test-event", test_event)
    ∷ ("/", web)
    ∷ []

unfoldable pub ends_in_slash : String → Bool
ends_in_slash String.[] = false
ends_in_slash (String.◌∷◌ c String.[]) = code c == 47
ends_in_slash (String.◌∷◌ c (String.◌∷◌ d s)) = ends_in_slash (String.◌∷◌ d s)

-- A pattern that ends in a slash is for all paths below it.
unfoldable pub matches : String → String → Bool
matches pattern path = str_eq pattern path || (ends_in_slash pattern && has_prefix path pattern)

-- The longer of a pattern and the one that was found after it.
unfoldable pub longer : String × Route → Option (String × Route) → String × Route
longer x none = x
longer (pattern, r) (some (other, s)) =
    if leb (len pattern) (len other) then (other, s) else (pattern, r)

-- The longest pattern that matches.
unfoldable pub longest : List (String × Route) → String → Option (String × Route)
longest [] path = none
longest (x ∷ rest) path =
    let later = longest rest path in if matches x.0 path then some (longer x later) else later

-- No element between two slashes is empty, "." or "..", and the last one, which may be empty, is
-- not "." or ".."; `element` is what there is of the first one.
unfoldable pub clean_elements : String → String → Bool
clean_elements element String.[] = not (str_eq element "." || str_eq element "..")
clean_elements element (String.◌∷◌ c s) =
    let next = clean_elements "" s in
    let longer = clean_elements (String.◌++◌ element (String.◌∷◌ c "")) s in
    if code c == 47
    then not (str_eq element "" || (str_eq element "." || str_eq element "..")) && next
    else longer

-- The paths that http.ServeMux hands to a handler as they are.
unfoldable pub is_clean : String → Bool
is_clean String.[] = false
is_clean (String.◌∷◌ c s) = code c == 47 && clean_elements "" s

-- The handler of a path that is clean.
unfoldable pub route : String → Option Route
route path = elim (longest patterns path) [ none ↦ none | some (pattern, r) ↦ some r ]
