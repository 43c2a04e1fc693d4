-- ===== src/Config/Defaults.antt =====
-- internal/config/config.go: `initDefaults`, and the configuration where the environment says nothing.
use mathlib.Core.List.{[], ◌∷◌}
use cdn_origin_controller.Prelude.{
  String, ◌≡◌, refl, sym, ap, ◌∙◌, Bool, true, false, Option, none, some, string_eq,
}
use cdn_origin_controller.GoError.{ok, annotated, >>=-eq-ok, ok-injective}
use cdn_origin_controller.GoMap.{GoMap, lookup}
use cdn_origin_controller.Config.{
  Config, Viper, parse, parse_namespaced_names, parse_list, extract_tags,
}

-- What `SetDefault` is given.
pub data Setting : Type 0 where
  text : String → Setting
  flag : Bool → Setting

-- `initDefaults`: the default of each key that has one.
unfoldable pub init_defaults : GoMap String Setting
init_defaults =
    ("log_level", text "info")
    ∷ ("dev_mode", text "false")
    ∷ ("enable_deletion", text "false")
    ∷ ("cf_default_origin_domain", text "")
    ∷ ("cf_price_class", text "PriceClass_All")
    ∷ ("cf_security_policy", text "")
    ∷ ("cf_enable_logging", text "false")
    ∷ ("cf_s3_bucket_log", text "")
    ∷ ("cf_s3_bucket_log_prefix", text "")
    ∷ ("cf_enable_ipv6", text "true")
    ∷ ("cf_description_template", text "Serve contents for {{group}} group.")
    ∷ ("cf_custom_tags", text "")
    ∷ ("cf_default_caching_policy_id", text "4135ea2d-6df8-44a3-9df3-4b5a84be39ad")
    ∷ ("cf_default_cache_request_policy_id", text "216adef6-5c7f-47e4-b989-5492eafa07d3")
    ∷ (
      "cf_default_public_origin_access_request_policy_id",
      text "216adef6-5c7f-47e4-b989-5492eafa07d3",
    )
    ∷ (
      "cf_default_bucket_origin_access_request_policy_id",
      text "88a5eaf4-2fd4-4709-b370-b4c650ea3fcf",
    )
    ∷ ("block_creation", flag false)
    ∷ []

-- What viper documents of the texts and flags that it is asked for: a value of the environment goes
-- over a default, and a key without either is "" or false. A text is cast to a flag.
pub record IsViper (env : String → Option String) (v : Viper) : Type 0 where
  pub get_string-default :
      (key value : String)
      → env key ≡ none
      → lookup key init_defaults ≡ some (text value)
      → v.get_string key ≡ value
  pub get_string-missing :
      (key : String) → env key ≡ none → lookup key init_defaults ≡ none → v.get_string key ≡ ""
  pub get_bool-true :
      (key : String)
      → env key ≡ none
      → lookup key init_defaults ≡ some (text "true")
      → v.get_bool key ≡ true
  pub get_bool-false :
      (key : String)
      → env key ≡ none
      → lookup key init_defaults ≡ some (text "false")
      → v.get_bool key ≡ false
  pub get_bool-flag :
      (key : String) (b : Bool)
      → env key ≡ none
      → lookup key init_defaults ≡ some (flag b)
      → v.get_bool key ≡ b

-- If viper does what it documents, then in every configuration that is parsed deletion is disabled
-- unless the environment sets its key, and creation is not blocked unless the environment sets its
-- key.
pub parse_of_defaults :
    (env : String → Option String) (v : Viper) (c : Config)
    → IsViper env v
    → parse v ≡ ok c
    → (env "enable_deletion" ≡ none → c.deletion_enabled ≡ false)
      × (env "block_creation" ≡ none → c.is_create_blocked ≡ false)
unfolding parse init_defaults lookup string_eq
parse_of_defaults env v c viper h =
    let (allow_list, _, h1) =
      >>=-eq-ok
        (annotated "invalid block_creation_allow_list"
          (parse_namespaced_names (parse_list (v.get_string "block_creation_allow_list"))))
        _ h in
    let (tags, _, h2) = >>=-eq-ok (extract_tags (v.get_string "cf_custom_tags")) _ h1 in
    let same = ok-injective h2 in
    (
      λ unset.
          ap (λ d. d.deletion_enabled) (sym same)
          ∙ viper.get_bool-false "enable_deletion" unset refl,
      λ unset.
          ap (λ d. d.is_create_blocked) (sym same)
          ∙ viper.get_bool-flag "block_creation" false unset refl,
    )
