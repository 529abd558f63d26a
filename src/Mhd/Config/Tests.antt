-- ===== src/Mhd/Config/Tests.antt =====
-- backend/mhd-preprocessor/src/config.go with the default address configured once more.
use rio_t_preprocessors.Base.{
  ◌≤◌, string_eq, some, none, ◌==◌, if◌then◌else◌, [], ◌∷◌, ◌≡◌, refl, length, IsDistinct,
}
use rio_t_preprocessors.Base.Environment.{Environment, UrlLibrary, get_env, complete_url}
use rio_t_preprocessors.Base.Text.{trim_space}
use rio_t_preprocessors.Mhd.Config.{
  default_ws_url, load_stream_ws_urls, candidates_from, add_candidates, add_new, or_default,
  normalize_stream_ws_url, printed_url, load_stream_ws_urls-IsUsable,
}

abbrev urls : UrlLibrary
urls = record { parse_url = λ text. none; url_string = λ url. "" }

abbrev twice : Environment
twice key = if key == "MHD_WS_URL" then some default_ws_url else none

once : load_stream_ws_urls urls twice ≡ default_ws_url ∷ []
unfolding load_stream_ws_urls get_env candidates_from add_candidates add_new or_default
    normalize_stream_ws_url trim_space complete_url printed_url
once = refl

load_stream_ws_urls-IsUsable_example :
    IsDistinct (load_stream_ws_urls urls twice) × (1 ≤ length (load_stream_ws_urls urls twice))
load_stream_ws_urls-IsUsable_example = load_stream_ws_urls-IsUsable urls twice
