-- ===== src/Route53/Alias/Laws.antt =====
-- Domains are normalised once and for all, and an alias has one entry for each domain.
use mathlib.Core.List.{List, [], ◌∷◌}
use cdn_origin_controller.Prelude.{String, ◌≡◌, refl, Bool, true, Bool-cases, inl, inr}
use cdn_origin_controller.GoString.{has_suffix}
use cdn_origin_controller.GoString.Laws.{has_suffix-append}
use cdn_origin_controller.Route53.Alias.{
  normalize_domain, normalize_domains, new_entries, entry_names, new_aliases, domains, alias_types,
}

pub has_suffix-normalize_domain : (d : String) → has_suffix (normalize_domain d) "." ≡ true
unfolding normalize_domain
has_suffix-normalize_domain d = elim (Bool-cases (has_suffix d ".")) [
  | inl dotted ↦ rw dotted dotted
  | inr bare ↦ rw bare (has_suffix-append d ".")
]

pub normalize_domain_idem :
    (d : String) → normalize_domain (normalize_domain d) ≡ normalize_domain d
unfolding normalize_domain
normalize_domain_idem d = rw (has_suffix-normalize_domain d)

-- Normalising domains a second time changes none of them.
pub normalize_domains_idem :
    (ds : List String) → normalize_domains (normalize_domains ds) ≡ normalize_domains ds
unfolding normalize_domains
normalize_domains_idem [] = refl
normalize_domains_idem (d ∷ ds) = cc (normalize_domain_idem d, normalize_domains_idem ds)

entry_names-new_entries :
    (types ds : List String) → entry_names (new_entries types ds) ≡ normalize_domains ds
unfolding entry_names new_entries normalize_domains
entry_names-new_entries types [] = refl
entry_names-new_entries types (d ∷ ds) = cc (entry_names-new_entries types ds)

-- The domains of the aliases of a distribution are its domains, normalised, in their order.
pub domains-new_aliases :
    (target zone owner : String) (ds : List String) (ipv6 : Bool)
    → domains (new_aliases target zone owner ds ipv6) ≡ normalize_domains ds
unfolding domains new_aliases
domains-new_aliases target zone owner ds ipv6 = entry_names-new_entries (alias_types ipv6) ds
