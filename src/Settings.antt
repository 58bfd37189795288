-- ===== src/Settings.antt =====
-- internal/config/config.go: the configuration and its checks. The environment is a function from
-- names to values; strings.TrimSpace, strings.ToLower and strconv.Atoi are parameters.
pub mod Checks
use Prim.Native.Char.{Char, code}
use octo_doc.Base.{
  ℕ, ◌+◌, ◌-◌, ◌*◌, ◌/◌, ◌%◌, ◌^◌, String, Bool, true, false, not, ◌&&◌, ◌||◌, List, [], ◌∷◌, ◌++◌,
  Option, none, some, ◌==◌, eqb, ltb, if◌then◌else◌,
}
use octo_doc.Base.Int.{ℤ, pos, negsuc, leb_ℤ, ltb_ℤ, wrap_64}
use octo_doc.Base.Text.{concat}
use octo_doc.Core.Runtime.{itoa}

pub record Config : Type 0 where
  pub port : ℤ
  pub host : String
  pub base_url : String
  pub repo_url : String
  pub database_url : String
  pub pg_pool_max : ℤ
  pub s3_bucket : String
  pub s3_region : String
  pub s3_endpoint : String
  pub s3_force_path_style : Bool
  pub s3_access_key_id : String
  pub s3_secret_key : String
  pub write_token : String
  pub allow_bootstrap : Bool
  pub owner : String
  pub frame_ancestors : String
  pub trust_proxy_headers : Bool
  pub cors_origins : List String
  pub rate_limit_window : ℤ
  pub rate_limit_max : ℤ
  pub max_html_bytes : ℤ
  pub max_asset_bytes : ℤ
  pub asset_mime_allow : List String
  pub log_level : String
  pub cookie_secure : Bool
  pub io_timeout : ℤ
  pub io_retries : ℤ

abbrev pub default_asset_mime_allow : String
default_asset_mime_allow = concat (
    "image/png,image/jpeg,image/gif,image/webp,image/avif,image/svg+xml,"
    ∷ "video/mp4,video/webm,audio/mpeg,audio/ogg,audio/wav,application/pdf" ∷ [])

-- `time.Duration(n) * time.Millisecond`, in nanoseconds
unfoldable pub milliseconds : ℤ → ℤ
unfolding wrap_64
milliseconds (pos n) = wrap_64 (pos (n * 1000000))
milliseconds (negsuc n) = wrap_64 (negsuc ((n + 1) * 1000000 - 1))

-- `strings.TrimRight(s, "/")`
unfoldable pub trim_slashes : String → String
trim_slashes String.[] = ""
trim_slashes (String.◌∷◌ c s) = elim (trim_slashes s) [
  | String.[] ↦ if eqb (code c) b'/' then "" else String.◌∷◌ c ""
  | String.◌∷◌ d t ↦ String.◌∷◌ c (String.◌∷◌ d t)
]

-- `strings.SplitSeq(s, ",")`: the first part, and the others
unfoldable pub parts : String → String × List String
parts String.[] = ("", [])
parts (String.◌∷◌ c s) =
    let (p, ps) = parts s in if eqb (code c) b',' then ("", p ∷ ps) else (String.◌∷◌ c p, ps)

module _ (look_up : String → Option String) (trim_space to_lower : String → String)
    (atoi : String → Option ℤ) where
  unfoldable pub env : String → String → String
  env key dflt = elim (look_up key) [ some v ↦ v | none ↦ dflt ]

  unfoldable pub keep_parts : List String → List String
  keep_parts [] = []
  keep_parts (p ∷ ps) =
      let rest = keep_parts ps in if trim_space p == "" then rest else trim_space p ∷ rest

  unfoldable pub split_list : String → List String
  unfolding parts keep_parts
  split_list v = let (p, ps) = parts v in keep_parts (p ∷ ps)

  unfoldable pub env_int : String → ℤ → ℤ
  env_int key dflt = elim (look_up key) [
    | none ↦ dflt
    | some v ↦ elim (atoi (trim_space v)) [ some n ↦ n | none ↦ dflt ]
  ]

  unfoldable pub is_truthy : String → Bool
  is_truthy s = s == "1" || s == "true" || s == "yes" || s == "on"

  unfoldable pub env_bool : String → Bool → Bool
  unfolding is_truthy
  env_bool key dflt = elim (look_up key) [
    | some v ↦ is_truthy (to_lower (trim_space v))
    | none ↦ dflt
  ]

  unfoldable pub load : Config
  unfolding env env_int env_bool split_list trim_slashes milliseconds
  load = record {
    port = env_int "PORT" (pos 8080);
    host = env "HOST" "0.0.0.0";
    base_url = trim_slashes (env "BASE_URL" "");
    repo_url = env "REPO_URL" "https://github.com/lml2468/octo-doc";
    database_url = env "DATABASE_URL" (env "PG_URL" "");
    pg_pool_max = env_int "PG_POOL_MAX" (pos 10);
    s3_bucket = env "S3_BUCKET" "octo-doc";
    s3_region = env "S3_REGION" (env "AWS_REGION" "us-east-1");
    s3_endpoint = env "S3_ENDPOINT" "";
    s3_force_path_style = env_bool "S3_FORCE_PATH_STYLE" false;
    s3_access_key_id = env "S3_ACCESS_KEY_ID" (env "AWS_ACCESS_KEY_ID" "");
    s3_secret_key = env "S3_SECRET_ACCESS_KEY" (env "AWS_SECRET_ACCESS_KEY" "");
    write_token = env "WRITE_TOKEN" "";
    allow_bootstrap = env_bool "ALLOW_BOOTSTRAP" true;
    owner = trim_space (env "OWNER" "");
    frame_ancestors = trim_space (env "FRAME_ANCESTORS" "'none'");
    trust_proxy_headers = env_bool "TRUST_PROXY_HEADERS" false;
    cors_origins = split_list (env "CORS_ORIGINS" "");
    rate_limit_window = milliseconds (env_int "RATE_LIMIT_WINDOW_MS" (pos 60000));
    rate_limit_max = env_int "RATE_LIMIT_MAX" (pos 60);
    max_html_bytes = env_int "MAX_HTML_BYTES" (pos (5 * 1024 * 1024));
    max_asset_bytes = env_int "MAX_ASSET_BYTES" (pos (25 * 1024 * 1024));
    asset_mime_allow = split_list (env "ASSET_MIME_ALLOW" default_asset_mime_allow);
    log_level = env "LOG_LEVEL" "info";
    cookie_secure = env_bool "COOKIE_SECURE" true;
    io_timeout = milliseconds (env_int "IO_TIMEOUT_MS" (pos 5000));
    io_retries = env_int "IO_RETRIES" (pos 2);
  }

-- `problems = append(problems, …)` under a test
unfoldable pub problem : Bool → String → List String
problem true text = text ∷ []
problem false text = []

unfoldable pub is_empty : List String → Bool
is_empty [] = true
is_empty (x ∷ xs) = false

unfoldable pub problems : Config → List String
unfolding is_empty
problems c =
    problem (c.database_url == "") "DATABASE_URL is required (PostgreSQL connection string)"
    ++ (problem (c.s3_bucket == "") "S3_BUCKET is required"
        ++ (problem (leb_ℤ c.port (pos 0) || ltb_ℤ (pos 65535) c.port)
              (concat ("PORT must be 1..65535, got " ∷ itoa c.port ∷ []))
            ++ (problem (leb_ℤ c.pg_pool_max (pos 0) || ltb_ℤ (pos 2147483647) c.pg_pool_max)
                  (concat ("PG_POOL_MAX must be 1..2147483647, got " ∷ itoa c.pg_pool_max ∷ []))
                ++ (problem (ltb_ℤ c.rate_limit_max (pos 0))
                      (concat ("RATE_LIMIT_MAX must be >= 0, got " ∷ itoa c.rate_limit_max ∷ []))
                    ++ (problem (leb_ℤ c.max_html_bytes (pos 0)) (
                          concat
                            ("MAX_HTML_BYTES must be positive, got " ∷ itoa c.max_html_bytes ∷ []))
                        ++ (problem (leb_ℤ c.max_asset_bytes (pos 0)) (
                              concat (
                                "MAX_ASSET_BYTES must be positive, got "
                                ∷ itoa c.max_asset_bytes
                                ∷ []))
                            ++ (problem (is_empty c.asset_mime_allow)
                                  "ASSET_MIME_ALLOW must list at least one MIME type"
                                ++ problem
                                    (not (c.s3_endpoint == "")
                                      && (c.s3_access_key_id == "" || c.s3_secret_key == ""))
                                    "S3_ACCESS_KEY_ID and S3_SECRET_ACCESS_KEY are required when S3_ENDPOINT is set")))))))

unfoldable pub join_problems : List String → String
join_problems [] = ""
join_problems (p ∷ []) = p
join_problems (p ∷ q ∷ ps) = concat (p ∷ "\n  - " ∷ join_problems (q ∷ ps) ∷ [])

-- `Validate`: `some` is the error's text.
unfoldable pub validate : Config → Option String
unfolding join_problems
validate c = elim (problems c) [
  | [] ↦ none
  | p ∷ ps ↦ some (concat ("invalid configuration:\n  - " ∷ join_problems (p ∷ ps) ∷ []))
]
