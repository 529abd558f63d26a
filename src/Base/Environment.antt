-- ===== src/Base/Environment.antt =====
-- The environment of a process, `net/url`, and what the preprocessors' config.go files make of them.
-- The environment gives each variable's value, if it is set; a URL is its parts.
use rio_t_preprocessors.Base.{
  ◌&&◌, ◌||◌, String, string_eq, nat_eq, ◌==◌, if◌then◌else◌, Option, none, some, ◌≡◌, refl,
}
use Prim.Native.Char.{code}

abbrev pub Environment : Type 0
Environment = String → Option String

-- `os.Getenv`
unfoldable pub os_getenv : Environment → String → String
os_getenv env key = elim (env key) [ none ↦ "" | some value ↦ value ]

-- `getEnv` of each preprocessor.
unfoldable pub get_env : Environment → String → String → String
unfolding os_getenv
get_env env key fallback = let value = os_getenv env key in if value == "" then fallback else value

pub record Url : Type 0 where
  pub scheme : String
  pub host : String
  pub path : String
  pub others : String

-- `url.Parse` and `(*URL).String`.
pub record UrlLibrary : Type 0 where
  pub parse_url : String → Option Url
  pub url_string : Url → String

-- The test `err != nil || parsed.Scheme == "" || parsed.Host == ""` in front of a normalization.
unfoldable pub complete_url : Option Url → Option Url
complete_url none = none
complete_url (some url) = if url.scheme == "" || url.host == "" then none else some url

-- `strings.TrimRight(s, "/")`
unfoldable pub trim_right_slashes : String → String
trim_right_slashes String.[] = ""
trim_right_slashes (String.◌∷◌ c s) =
    let rest = trim_right_slashes s in if rest == "" && code c == 47 then "" else String.◌∷◌ c rest

slashes : (trim_right_slashes "//" ≡ "") × (trim_right_slashes "/a/" ≡ "/a")
unfolding trim_right_slashes
slashes = (refl, refl)
