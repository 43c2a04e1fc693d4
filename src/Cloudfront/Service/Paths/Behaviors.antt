-- ===== src/Cloudfront/Service/Paths/Behaviors.antt =====
-- The behaviors of an Ingress's origin: one for each pattern of its paths, with its policies.
use mathlib.Core.List.{List, [], ◌∷◌}
use mathlib.Core.Path.{subst}
use cdn_origin_controller.Prelude.{
  String, ◌≡◌, refl, sym, ap, ◌∙◌, Bool, false, ◌||◌, ◌==◌, string_eq, arith, All, if◌then◌else◌,
}
use cdn_origin_controller.GoMap.{GoMap, keys, insert}
use cdn_origin_controller.GoString.{nonempty}
use cdn_origin_controller.Strhelper.{contains}
use cdn_origin_controller.Config.{Config}
use cdn_origin_controller.K8s.Ingress.{IngressPath, CdnIngress}
use cdn_origin_controller.K8s.Shared.{SharedIngressParams, paths_from_origin}
use cdn_origin_controller.Cloudfront.Function.{Function, new_functions}
use cdn_origin_controller.Cloudfront.Origin.{
  Behavior, OriginBuilder, with_behavior, behaviors_of, for_each_behavior, build_origin,
  new_origin_builder, with_request_policy, with_cache_policy, with_response_policy,
  with_response_timeout, with_origin_headers, add_behaviors, add_request_policy_to_behaviors,
  add_cache_policy_behaviors, add_response_policy_to_behaviors, add_origin_access_configuration,
  default_request_policy_for_type,
}
use cdn_origin_controller.Cloudfront.Service.Paths.{
  path_patterns_for_path, with_patterns, with_paths, base_builder, new_origin,
}

-- The patterns of the behaviors.
unfoldable pub patterns_of : List Behavior → List String
patterns_of [] = []
patterns_of (b ∷ bs) = b.path_pattern ∷ patterns_of bs

-- Some path of the list has the pattern.
unfoldable pub any_path : List IngressPath → String → Bool
any_path [] pp = false
any_path (p ∷ ps) pp = contains (path_patterns_for_path p) pp || any_path ps pp

module _ {ℓ} {V : Type ℓ} where
  contains-keys_insert :
      (k : String) (v : V) (m : GoMap String V) (j : String)
      → contains (keys (insert k v m)) j ≡ (k == j || contains (keys m) j)
  unfolding contains keys insert
  contains-keys_insert k v [] j = refl
  contains-keys_insert k v ((i, w) ∷ m) j = ground (arith, contains-keys_insert k v m j)

contains-with_behavior :
    (pp : String) (functions : List Function) (b : OriginBuilder) (j : String)
    → contains (keys (with_behavior pp functions b).behaviors) j
      ≡ (pp == j || contains (keys b.behaviors) j)
unfolding with_behavior
contains-with_behavior pp functions b j = contains-keys_insert pp _ b.behaviors j

contains-with_patterns :
    (functions : List Function) (pps : List String) (b : OriginBuilder) (j : String)
    → contains (keys (with_patterns functions pps b).behaviors) j
      ≡ (contains pps j || contains (keys b.behaviors) j)
unfolding with_patterns contains
contains-with_patterns functions [] b j = refl
contains-with_patterns functions (pp ∷ pps) b j =
    contains-with_patterns functions pps (with_behavior pp functions b) j
    ∙ ground (arith, contains-with_behavior pp functions b j)

contains-with_paths :
    (ps : List IngressPath) (b : OriginBuilder) (j : String)
    → contains (keys (with_paths ps b).behaviors) j
      ≡ (any_path ps j || contains (keys b.behaviors) j)
unfolding with_paths any_path
contains-with_paths [] b j = refl
contains-with_paths (p ∷ ps) b j =
    contains-with_paths ps
      (with_patterns (new_functions p.function_associations) (path_patterns_for_path p) b) j
    ∙ ground (
      arith,
      contains-with_patterns (new_functions p.function_associations) (path_patterns_for_path p) b j,
    )

-- What `build_origin` does to each behavior.
abbrev with_policies : OriginBuilder → Behavior → Behavior
with_policies b x = record x {
  request_policy = b.request_policy;
  cache_policy = b.cache_policy;
  response_policy = b.response_policy;
}

for_each_with_policies :
    (b : OriginBuilder) (bs : List Behavior)
    → for_each_behavior
        (λ x. record x { response_policy = b.response_policy })
        (for_each_behavior
          (λ x. record x { request_policy = b.request_policy })
          (for_each_behavior (λ x. record x { cache_policy = b.cache_policy }) bs))
      ≡ for_each_behavior (with_policies b) bs
unfolding for_each_behavior
for_each_with_policies b [] = refl
for_each_with_policies b (x ∷ bs) = ap (λ l. with_policies b x ∷ l) (for_each_with_policies b bs)

behaviors-build_origin :
    (md5 : String → String) (b : OriginBuilder)
    → (build_origin md5 b).behaviors
      ≡ for_each_behavior (with_policies b) (behaviors_of b.host b.behaviors)
unfolding build_origin add_behaviors add_request_policy_to_behaviors add_cache_policy_behaviors
    add_response_policy_to_behaviors add_origin_access_configuration
behaviors-build_origin md5 b =
    ground (arith, for_each_with_policies b (behaviors_of b.host b.behaviors))

patterns_of-built :
    (b : OriginBuilder) (host : String) (m : GoMap String (List Function))
    → patterns_of (for_each_behavior (with_policies b) (behaviors_of host m)) ≡ keys m
unfolding for_each_behavior patterns_of behaviors_of keys
patterns_of-built b host [] = refl
patterns_of-built b host ((k, functions) ∷ m) = ap (λ l. k ∷ l) (patterns_of-built b host m)

no_behaviors : (ing : CdnIngress) (cfg : Config) → (base_builder ing cfg).behaviors ≡ []
unfolding base_builder new_origin_builder with_request_policy with_cache_policy with_response_policy
    with_response_timeout with_origin_headers
no_behaviors ing cfg = refl

-- The origin of an Ingress has a behavior for a pattern exactly where a shared path of its host has
-- the pattern.
pub contains-patterns_of-new_origin :
    (md5 : String → String) (ing : CdnIngress) (cfg : Config) (shared : SharedIngressParams)
    (pp : String)
    → contains (patterns_of (new_origin md5 ing cfg shared).behaviors) pp
      ≡ any_path (paths_from_origin shared ing.origin_host) pp
unfolding new_origin contains keys
contains-patterns_of-new_origin md5 ing cfg shared pp =
    let ps = paths_from_origin shared ing.origin_host in
    let b = with_paths ps (base_builder ing cfg) in
    ap (λ l. contains l pp)
      (ap patterns_of (behaviors-build_origin md5 b) ∙ patterns_of-built b b.host b.behaviors)
    ∙ contains-with_paths ps (base_builder ing cfg) pp
    ∙ ground (arith, no_behaviors ing cfg)

-- A builder's host and policies, which its behaviors get.
abbrev policies : OriginBuilder → String × (String × (String × String))
policies b = (b.host, (b.request_policy, (b.cache_policy, b.response_policy)))

-- The host and the policies of a behavior.
abbrev pub behavior_policies : Behavior → String × (String × (String × String))
behavior_policies x = (x.origin_host, (x.request_policy, (x.cache_policy, x.response_policy)))

policies-with_patterns :
    (functions : List Function) (pps : List String) (b : OriginBuilder)
    → policies (with_patterns functions pps b) ≡ policies b
unfolding with_patterns with_behavior
policies-with_patterns functions [] b = refl
policies-with_patterns functions (pp ∷ pps) b =
    policies-with_patterns functions pps (with_behavior pp functions b)

policies-with_paths :
    (ps : List IngressPath) (b : OriginBuilder) → policies (with_paths ps b) ≡ policies b
unfolding with_paths
policies-with_paths [] b = refl
policies-with_paths (p ∷ ps) b =
    policies-with_paths ps _
    ∙ policies-with_patterns (new_functions p.function_associations) (path_patterns_for_path p) b

built-All :
    (b : OriginBuilder) (m : GoMap String (List Function))
    → All
        (λ x. behavior_policies x ≡ policies b)
        (for_each_behavior (with_policies b) (behaviors_of b.host m))
unfolding for_each_behavior behaviors_of
built-All b [] = tt
built-All b ((k, functions) ∷ m) = (refl, built-All b m)

or_empty : (s : String) → (if nonempty s then s else "") ≡ s
or_empty String.[] = refl
or_empty (String.◌∷◌ c s) = refl

-- The host and the policies that an Ingress asks for, or the defaults.
abbrev pub policies_of : CdnIngress → Config → String × (String × (String × String))
policies_of ing cfg = (
  ing.origin_host,
  (
    if nonempty ing.origin_req_policy
        then ing.origin_req_policy
        else default_request_policy_for_type ing.origin_access cfg,
    (
      if nonempty ing.cache_policy
          then ing.cache_policy
          else cfg.cloudfront_default_caching_policy_id,
      ing.response_policy,
    ),
  ),
)

policies-base_builder :
    (ing : CdnIngress) (cfg : Config) → policies (base_builder ing cfg) ≡ policies_of ing cfg
unfolding base_builder new_origin_builder with_request_policy with_cache_policy with_response_policy
    with_response_timeout with_origin_headers
policies-base_builder ing cfg =
    ap
      (λ r. (
        ing.origin_host,
        (
          if nonempty ing.origin_req_policy
              then ing.origin_req_policy
              else default_request_policy_for_type ing.origin_access cfg,
          (
            if nonempty ing.cache_policy
                then ing.cache_policy
                else cfg.cloudfront_default_caching_policy_id,
            r,
          ),
        ),
      ))
      (or_empty ing.response_policy)

-- Each behavior of the origin has the Ingress's host and policies; where the Ingress has no request
-- policy it is the default one for its access type, and for no cache policy the default one.
pub new_origin-All :
    (md5 : String → String) (ing : CdnIngress) (cfg : Config) (shared : SharedIngressParams)
    → All (λ x. behavior_policies x ≡ policies_of ing cfg) (new_origin md5 ing cfg shared).behaviors
unfolding new_origin
new_origin-All md5 ing cfg shared =
    let ps = paths_from_origin shared ing.origin_host in
    let base = base_builder ing cfg in
    let b = with_paths ps base in
    subst (All (λ x. behavior_policies x ≡ policies_of ing cfg))
      (sym (behaviors-build_origin md5 b))
      (subst
        (λ t.
          All (λ x. behavior_policies x ≡ t)
            (for_each_behavior (with_policies b) (behaviors_of b.host b.behaviors)))
        (policies-with_paths ps base ∙ policies-base_builder ing cfg) (built-All b b.behaviors))
