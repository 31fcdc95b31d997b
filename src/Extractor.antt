-- ===== src/Extractor.antt =====
-- src/extractor.rs: deriving a rate limit key from a request.
pub mod Path
pub mod Keys
use armature_ratelimit.Extractor.Path.{normalize_path}
use armature_ratelimit.Prelude.{
  ℕ, ◌+◌, ◌*◌, ◌/◌, ◌%◌, ◌^◌, Bool, true, false, not, ◌&&◌, Option, none, some, List, [], ◌∷◌, ◌++◌,
  Text, codes, text_eq, leb, ◌==◌, if◌then◌else◌, take, map_option,
}

-- What the code takes from elsewhere: SHA-256 of the `sha2` package, and the printed forms of
-- addresses, an IPv4 one as a `u32` and an IPv6 one as a `u128`.
pub record Host : Type 0 where
  pub sha256 : Text → List ℕ
  pub show_v4 : ℕ → Text
  pub show_v6 : ℕ → Text

pub data IpAddr : Type 0 where
  v4 v6 : ℕ → IpAddr

pub record RequestInfo : Type 0 where
  pub ip : Option IpAddr
  pub path : Text
  pub method : Text
  pub user_id : Option Text
  pub api_key : Option Text
  pub headers : List (Text × Text)

unfoldable pub new : Text → Text → RequestInfo
new path method = record {
  ip = none;
  path = path;
  method = method;
  user_id = none;
  api_key = none;
  headers = [];
}

unfoldable pub with_ip : RequestInfo → IpAddr → RequestInfo
with_ip info ip = record info { ip = some ip }

abbrev pub with_user_id : RequestInfo → Text → RequestInfo
with_user_id info user_id = record info { user_id = some user_id }

abbrev pub with_api_key : RequestInfo → Text → RequestInfo
with_api_key info api_key = record info { api_key = some api_key }

abbrev pub with_header : RequestInfo → Text → Text → RequestInfo
with_header info name value = record info { headers = info.headers ++ (name, value) ∷ [] }

abbrev to_lower : ℕ → ℕ
to_lower c = if leb b'A' c && leb c b'Z' then c + 32 else c

abbrev eq_ignore_ascii_case : Text → Text → Bool
eq_ignore_ascii_case [] [] = true
eq_ignore_ascii_case [] (d ∷ t) = false
eq_ignore_ascii_case (c ∷ s) [] = false
eq_ignore_ascii_case (c ∷ s) (d ∷ t) = to_lower c == to_lower d && eq_ignore_ascii_case s t

abbrev find_header : List (Text × Text) → Text → Option Text
find_header [] name = none
find_header ((n, v) ∷ headers) name =
    if eq_ignore_ascii_case n name then some v else find_header headers name

abbrev pub get_header : RequestInfo → Text → Option Text
get_header info name = find_header info.headers name

abbrev pub hex_digit : ℕ → ℕ
hex_digit n = if leb 10 n then n + 87 else n + 48

-- `{byte:02x}` for each byte.
unfoldable pub hex : List ℕ → Text
hex [] = []
hex (byte ∷ bytes) = hex_digit (byte / 16) ∷ hex_digit (byte % 16) ∷ hex bytes

module _ (host : Host) where
  unfoldable pub key_digest : Text → Text
  key_digest key = hex (host.sha256 key)

  unfoldable key_fingerprint : Text → Text
  unfolding key_digest
  key_fingerprint key = take 12 (key_digest key)

  unfoldable pub api_key_bucket : Text → Text
  api_key_bucket api_key = codes "apikey:" ++ key_digest api_key

  unfoldable pub ip_bucket : IpAddr → Text
  ip_bucket (v4 a) = host.show_v4 a
  ip_bucket (v6 a) =
      if a / 2 ^ 32 == 0xffff
      then host.show_v4 (a % 2 ^ 32)
      else host.show_v6 (a / 2 ^ 64 * 2 ^ 64) ++ codes "/64"

-- The validator is the function that `ApiKeyValidator` wraps.
pub data KeyExtractor : Type 0 where
  ip user_id : KeyExtractor
  api_key : (header_name : Text) (validator : Text → Bool) → KeyExtractor
  header : (name : Text) → KeyExtractor
  ip_and_path user_id_and_path : KeyExtractor

-- `Option::filter`
abbrev filter_option : (Text → Bool) → Option Text → Option Text
filter_option p none = none
filter_option p (some t) = if p t then some t else none

-- `format!("{}:{}", …)`
abbrev colon : Text → Text → Text
colon a b = a ++ (b':' ∷ b)

module _ (host : Host) where
  unfoldable pub extract : KeyExtractor → RequestInfo → Option Text
  extract ip info = map_option (ip_bucket host) info.ip
  extract user_id info = info.user_id
  extract (api_key header_name validator) info =
      map_option (api_key_bucket host)
        (filter_option (λ key. not (text_eq key []) && validator key) (get_header info header_name))
  extract (header name) info = get_header info name
  extract ip_and_path info =
      map_option (λ addr. colon (ip_bucket host addr) (normalize_path info.path)) info.ip
  extract user_id_and_path info =
      map_option (λ uid. colon uid (normalize_path info.path)) info.user_id

unfoldable pub required_header : KeyExtractor → Option Text
required_header (api_key header_name validator) = some header_name
required_header (header name) = some name
required_header _ = none

abbrev description : KeyExtractor → Text
description ip = codes "IP address"
description user_id = codes "User ID"
description (api_key header_name validator) = codes "API key"
description (header name) = codes "Custom header"
description ip_and_path = codes "IP + Path"
description user_id_and_path = codes "User ID + Path"

pub record KeyExtractorBuilder : Type 0 where
  pub extractors : List KeyExtractor
  pub fallback_to_ip : Bool

abbrev builder : KeyExtractorBuilder
builder = record { extractors = []; fallback_to_ip = true }

pub with_extractor : KeyExtractorBuilder → KeyExtractor → KeyExtractorBuilder
with_extractor b extractor = record b { extractors = b.extractors ++ extractor ∷ [] }

unfoldable prefer_user_id : KeyExtractorBuilder → KeyExtractorBuilder
unfolding with_extractor
prefer_user_id b = with_extractor b user_id

unfoldable prefer_api_key : KeyExtractorBuilder → Text → (Text → Bool) → KeyExtractorBuilder
unfolding with_extractor
prefer_api_key b header_name validator = with_extractor b (api_key header_name validator)

abbrev no_ip_fallback : KeyExtractorBuilder → KeyExtractorBuilder
no_ip_fallback b = record b { fallback_to_ip = false }

module _ (host : Host) where
  -- The loop of the closure that `build` returns.
  pub first_key : List KeyExtractor → RequestInfo → Option Text
  first_key [] info = none
  first_key (extractor ∷ rest) info =
      let later = first_key rest info in
      elim (extract host extractor info) [ some key ↦ some key | none ↦ later ]

  unfoldable pub build : KeyExtractorBuilder → RequestInfo → Option Text
  unfolding first_key
  build b info = elim (first_key b.extractors info) [
    | some key ↦ some key
    | none ↦ if b.fallback_to_ip then map_option (ip_bucket host) info.ip else none
  ]
