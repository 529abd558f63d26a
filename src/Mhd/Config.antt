-- ===== src/Mhd/Config.antt =====
-- loadConfig, loadStreamWSURLs and normalizeStreamWSURL in backend/mhd-preprocessor/src/config.go,
-- and buildWebSocketHeaders in ws_source.go.
mod Tests
use rio_t_preprocessors.Base.{
  Bool, true, false, ◌||◌, String, string_eq, ◌==◌, ◌*◌, if◌then◌else◌, Option, none, some, List,
  [], ◌∷◌, ◌++◌, ◌≡◌, refl, arith, elem, any_b-append, length, ◌≤◌, IsDistinct, inl, inr,
  Bool-cases,
}
use rio_t_preprocessors.Base.Int.{pos}
use rio_t_preprocessors.Base.Maps.{Dict, insert}
use rio_t_preprocessors.Base.Text.{trim_space}
use rio_t_preprocessors.Base.Time.{Duration, second, minute, millisecond}
use rio_t_preprocessors.Base.Environment.{Environment, get_env, Url, UrlLibrary, complete_url}
use rio_t_preprocessors.Mhd.Publish.{first_non_empty}

abbrev pub default_ws_url : String
default_ws_url = "wss://walter.fit.vutbr.cz/ben/ws/vehiclePositions"

abbrev pub default_gtfs_url : String
default_gtfs_url = "https://kordis-jmk.cz/gtfs/gtfs.zip"

-- The configuration without its location, for which `time.LoadLocation` is asked.
pub record Settings : Type 0 where
  pub ws_urls : List String
  pub gtfs_url : String
  pub gtfs_refresh_interval : Duration
  pub trip_end_reserve : Duration
  pub matching_window : Duration
  pub startup_grace_period : Duration
  pub synthetic_jitter : Duration
  pub closing_loop_interval : Duration
  pub reconnect_delay : Duration
  pub no_data_reconnect : Duration

unfoldable pub candidates_from : String → List String
candidates_from value = (if value == "" then [] else value ∷ []) ++ default_ws_url ∷ []

-- `value == "" || slices.Contains(normalized, value)` skips a candidate.
unfoldable pub add_new : String → List String → List String
add_new value normalized =
    if value == "" || elem value normalized then normalized else normalized ++ value ∷ []

-- The first location that is not empty is sent as the header; the library's map of headers is by name.
unfoldable pub authorization_header : Environment → Dict String String
authorization_header env =
    let authorization = first_non_empty (
      get_env env "MHD_WS_AUTHORIZATION" ""
      ∷ get_env env "MHD_WS_AUTH" ""
      ∷ get_env env "WS_AUTHORIZATION" ""
      ∷ []) in
    if authorization == "" then [] else insert "Authorization" authorization []

-- `hostname` is what `parsed.Hostname()` gives, if the address can be parsed.
unfoldable pub build_web_socket_headers : Environment → Option String → Dict String String
build_web_socket_headers env none = authorization_header env
build_web_socket_headers env (some hostname) =
    if hostname == "gis.brno.cz"
    then insert "Origin" "https://gis.brno.cz" (authorization_header env)
    else authorization_header env

module _ (lib : UrlLibrary) where
  unfoldable pub printed_url : String → Option Url → String
  printed_url value none = value
  printed_url value (some url) = lib.url_string url

  unfoldable pub normalize_stream_ws_url : String → String
  normalize_stream_ws_url value =
      let trimmed = trim_space value in
      if trimmed == "" then "" else printed_url trimmed (complete_url (lib.parse_url trimmed))

  unfoldable pub add_candidates : List String → List String → List String
  add_candidates [] normalized = normalized
  add_candidates (candidate ∷ rest) normalized =
      add_candidates rest (add_new (normalize_stream_ws_url candidate) normalized)

  unfoldable pub or_default : List String → List String
  or_default [] = normalize_stream_ws_url default_ws_url ∷ []
  or_default (url ∷ urls) = url ∷ urls

  unfoldable pub load_stream_ws_urls : Environment → List String
  load_stream_ws_urls env =
      or_default (add_candidates (candidates_from (get_env env "MHD_WS_URL" "")) [])

  unfoldable pub load_config : Environment → Settings
  load_config env = record {
    ws_urls = load_stream_ws_urls env;
    gtfs_url = get_env env "MHD_GTFS_URL" default_gtfs_url;
    gtfs_refresh_interval = pos (720 * minute);
    trip_end_reserve = pos (10 * minute);
    matching_window = pos (30 * minute);
    startup_grace_period = pos (60 * second);
    synthetic_jitter = pos (500 * millisecond);
    closing_loop_interval = pos (2 * second);
    reconnect_delay = pos (5 * second);
    no_data_reconnect = pos (45 * second);
  }

IsDistinct-append_new :
    (value : String) (urls : List String)
    → elem value urls ≡ false
    → IsDistinct urls
    → IsDistinct (urls ++ value ∷ [])
IsDistinct-append_new value [] n h = ground arith
IsDistinct-append_new value (url ∷ urls) n h = (
  ground (
    arith,
    any_b-append (λ x. x == url) urls (value ∷ []),
    n,
    h.0,
    string_eq.beq_iff url value,
    string_eq.beq_iff value url,
  ),
  IsDistinct-append_new value urls (ground (arith, n)) h.1,
)

IsDistinct-add_new :
    (value : String) (urls : List String) → IsDistinct urls → IsDistinct (add_new value urls)
unfolding add_new
IsDistinct-add_new value urls h = elim (Bool-cases (value == "" || elem value urls)) [
  | inl y ↦ rw y h
  | inr n ↦ rw n (IsDistinct-append_new value urls (ground (arith, n)) h)
]

module _ (lib : UrlLibrary) where
  IsDistinct-add_candidates :
      (candidates urls : List String)
      → IsDistinct urls
      → IsDistinct (add_candidates lib candidates urls)
  unfolding add_candidates
  IsDistinct-add_candidates [] urls h = h
  IsDistinct-add_candidates (candidate ∷ rest) urls h =
      IsDistinct-add_candidates rest (add_new (normalize_stream_ws_url lib candidate) urls)
        (IsDistinct-add_new (normalize_stream_ws_url lib candidate) urls h)

  or_default-IsUsable :
      (urls : List String)
      → IsDistinct urls
      → IsDistinct (or_default lib urls) × (1 ≤ length (or_default lib urls))
  unfolding or_default
  or_default-IsUsable [] h = ((refl, tt), omega arith)
  or_default-IsUsable (url ∷ urls) h = (h, omega arith)

  -- Whatever the environment holds, there is an address to connect to, and none is tried twice in a
  -- round.
  pub load_stream_ws_urls-IsUsable :
      (env : Environment)
      → IsDistinct (load_stream_ws_urls lib env) × (1 ≤ length (load_stream_ws_urls lib env))
  unfolding load_stream_ws_urls
  load_stream_ws_urls-IsUsable env =
      let found = add_candidates lib (candidates_from (get_env env "MHD_WS_URL" "")) [] in
      or_default-IsUsable found
        (IsDistinct-add_candidates (candidates_from (get_env env "MHD_WS_URL" "")) [] tt)
