-- ===== src/ConfigStore.antt =====
-- app/services/config_store.py: the free-provider filter, its patterns and its two settings rows.
pub mod Laws
use emailmarketing.Base.{
  Bool, false, Option, none, some, or_default, ◌||◌, List, [], ◌∷◌, if◌then◌else◌,
}
use emailmarketing.Text.{
  ◌==◌, Text, is_empty, lower, ends_with, strip, codes, starts_with, drop_last,
}

-- Whether one pattern covers a domain: "gmx.*" and "hotmail." are prefixes, all else is exact.
unfoldable pub covers : Text → Text → Bool
covers domain p =
    if is_empty p
    then false
    else if ends_with (codes ".*") p
    then starts_with (drop_last p) domain
    else if ends_with (codes ".") p
    then starts_with p domain
    else domain == p

unfoldable pub any_covers : Text → List Text → Bool
any_covers domain [] = false
any_covers domain (raw ∷ patterns) = covers domain (lower (strip raw)) || any_covers domain patterns

unfoldable pub is_free_provider : Text → List Text → Bool
is_free_provider domain patterns = any_covers (lower domain) patterns

-- the values of the rows `free_provider_filter_enabled` and `free_provider_domains`
pub record FilterRows : Type 0 where
  pub enabled : Option Bool
  pub domains : Option (List Text)

abbrev pub default_free_provider_domains : List Text
default_free_provider_domains =
    codes "gmail.com"
    ∷ codes "googlemail.com"
    ∷ codes "hotmail."
    ∷ codes "outlook."
    ∷ codes "live."
    ∷ codes "msn.com"
    ∷ codes "yahoo."
    ∷ codes "ymail.com"
    ∷ codes "aol.com"
    ∷ codes "icloud.com"
    ∷ codes "me.com"
    ∷ codes "gmx.*"
    ∷ codes "proton.me"
    ∷ codes "protonmail.com"
    ∷ []

-- `by_default` is the setting of the process
unfoldable pub get_free_provider_config : Bool → FilterRows → Bool × List Text
get_free_provider_config by_default rows =
    (or_default rows.enabled by_default, or_default rows.domains default_free_provider_domains)

-- `[d.strip().lower() for d in domains if d.strip()]`
unfoldable pub clean_domains : List Text → List Text
clean_domains [] = []
clean_domains (d ∷ ds) =
    let rest = clean_domains ds in if is_empty (strip d) then rest else lower (strip d) ∷ rest

unfoldable pub set_free_provider_config : Bool → List Text → FilterRows → FilterRows
set_free_provider_config enabled domains rows = record rows {
  enabled = some enabled;
  domains = some (clean_domains domains);
}
