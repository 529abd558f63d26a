-- ===== src/Ndic/Fetch.antt =====
-- fetch.go, main.go and the reading of the configuration in config.go of
-- backend/ndic-preprocessor/src. HTTP, JSON texts and XML tokens are the libraries': a download is
-- given by its answer, a text by the tree or the tokens that it stands for.
pub mod Poll
mod Tests
use rio_t_preprocessors.Base.{
  ℕ, Bool, true, false, ◌||◌, String, string_eq, nat_eq, ◌==◌, if◌then◌else◌, Option, none, some,
  List, [], ◌∷◌,
}
use rio_t_preprocessors.Base.Int.{ℤ, pos, ltb_ℤ, ◌+ℤ◌}
use rio_t_preprocessors.Base.Text.{trim_space, contains_text}
use rio_t_preprocessors.Base.Environment.{
  Environment, get_env, Url, UrlLibrary, complete_url, trim_right_slashes,
}
use rio_t_preprocessors.Base.Time.{Time, Duration, zero_time, is_zero, time_sub}
use rio_t_preprocessors.Commons.Json.{Value, read_field, keep, as_text}
use rio_t_preprocessors.Commons.Messages.{StateMessage, RegistrationMessage}
use rio_t_preprocessors.Ndic.Model.{AppConfig, ParsedFetch}
use rio_t_preprocessors.Ndic.Xml.{Token}
use rio_t_preprocessors.Ndic.Elaborated.{Attempt, done, fails, out_of_fuel, Library}
use rio_t_preprocessors.Ndic.Parser.{parse_ndic_xml}
use rio_t_preprocessors.Ndic.Tmc.{Points, enrich_fetch}
use rio_t_preprocessors.Ndic.Runtime.{Runtime, Oracle, process_fetch_result}

abbrev pub default_ndic_url : String
default_ndic_url = "http://80.211.200.65:8000/api/latest"

-- An address without a path gets that of the API.
unfoldable pub with_api_path : UrlLibrary → String → Option Url → String
with_api_path lib trimmed none = trimmed
with_api_path lib trimmed (some url) =
    let path = trim_right_slashes url.path in
    lib.url_string (if path == "" || path == "/" then record url { path = "/api/latest" } else url)

unfoldable pub normalize_ndic_url : UrlLibrary → String → String
normalize_ndic_url lib value =
    let trimmed = trim_space value in
    if trimmed == ""
    then default_ndic_url
    else with_api_path lib trimmed (complete_url (lib.parse_url trimmed))

-- `loadConfig().NDICURL`
unfoldable pub configured_ndic_url : UrlLibrary → Environment → String
configured_ndic_url lib env = normalize_ndic_url lib (get_env env "NDIC_URL" default_ndic_url)

-- What `http.Get` and the reading of the body give: no answer, or a status, a content type and the
-- body, where it could be read.
pub data Response : Type 0 where
  no_response : Response
  response : ℕ → String → Option String → Response

-- The tokens of a text, and whether they end as they should.
pub record Document : Type 0 where
  pub tokens : List Token
  pub complete : Bool

pub record Decoders (F : Type 0) : Type 0 where
  pub decode_json : String → Option (Value F)
  pub decode_xml : String → Document

-- `json.Unmarshal` into a fetchEnvelope.
unfoldable pub latest_raw : {F : Type 0} → Option (Value F) → Option String
latest_raw (some (Value.object members)) =
    read_field ("latest_raw" ∷ []) "latest_raw" keep as_text "" members
latest_raw (some Value.null) = some ""
latest_raw _ = none

-- `nextFetchDelay`; `now` is what `time.Until` reads.
unfoldable pub next_fetch_delay : Time → Duration → Time → Duration
next_fetch_delay now base_delay publication_time =
    if is_zero publication_time
    then base_delay
    else (let delay = time_sub (publication_time +ℤ base_delay) now in
        if ltb_ℤ delay (pos 0) then pos 0 else delay)

-- The parser always ends, so that the last case does not occur.
unfoldable pub parsed : {F : Type 0} → Attempt (ParsedFetch F) → Option (ParsedFetch F)
parsed (done fetch) = some fetch
parsed (fails e) = none
parsed out_of_fuel = none

module _ {F : Type 0} (library : Library F) (decoders : Decoders F) where
  unfoldable pub unwrap_xml : String → String → Option String
  unwrap_xml content_type body =
      if contains_text content_type "application/json"
      then latest_raw (decoders.decode_json body)
      else some body

  unfoldable pub parse_unwrapped : Time → Option String → Option (ParsedFetch F)
  parse_unwrapped now none = none
  parse_unwrapped now (some xml) =
      let document = decoders.decode_xml xml in
      parsed (parse_ndic_xml library now document.complete document.tokens)

  unfoldable pub read_body : Time → String → Option String → Option (ParsedFetch F)
  read_body now content_type none = none
  read_body now content_type (some body) = parse_unwrapped now (unwrap_xml content_type body)

  -- `none` is the error of any step.
  unfoldable pub fetch_ndic : Time → Response → Option (ParsedFetch F)
  fetch_ndic now no_response = none
  fetch_ndic now (response status content_type body) =
      if status == 200 then read_body now content_type body else none

-- `points` is the table of the enricher, if there is one.
unfoldable pub enriched :
    {F : Type 0} → (String → Option F) → Option Points → ParsedFetch F → ParsedFetch F
enriched parse_float none fetch = fetch
enriched parse_float (some points) fetch = enrich_fetch parse_float points fetch

-- What a poll leaves and publishes, and the time that decides on the next one.
abbrev pub PollResult : Type 0 → Type 0
PollResult F = (Runtime × List RegistrationMessage × List (StateMessage F)) × Time

module _ {F : Type 0} (float_of_int : ℤ → F) (parse_float : String → Option F) (config : AppConfig)
    (o : Oracle) (points : Option Points) where
  unfoldable pub process_fetch : Option (ParsedFetch F) → Runtime → PollResult F
  process_fetch none rt = ((rt, [], []), zero_time)
  process_fetch (some fetch) rt = (
    process_fetch_result float_of_int config o (enriched parse_float points fetch) rt,
    (enriched parse_float points fetch).publication_time,
  )

  unfoldable pub fetch_and_process_ndic_data :
      Library F → Decoders F → Time → Response → Runtime → PollResult F
  fetch_and_process_ndic_data library decoders now answer rt =
      process_fetch (fetch_ndic library decoders now answer) rt
