-- ===== src/ConfigStore/Laws.antt =====
-- What is saved in the settings filters as what was written in the form.
use emailmarketing.Text.{Text, is_empty, strip, lower}
use emailmarketing.ConfigStore.{
  covers, any_covers, clean_domains, get_free_provider_config, set_free_provider_config,
  is_free_provider, FilterRows,
}
use emailmarketing.Base.{
  ◌≡◌, refl, Bool, true, false, ◌||◌, List, [], ◌∷◌, inl, inr, Bool-cases, ap, ◌∙◌,
}
use emailmarketing.Normalize.Laws.{canonical}
use emailmarketing.Text.Laws.{is_empty-lower}

covers-canonical :
    (domain d : Text) → is_empty (strip d) ≡ true → covers domain (lower (strip d)) ≡ false
unfolding covers
covers-canonical domain d h = rw (is_empty-lower (strip d) ∙ h) refl

any_covers-clean_domains :
    (domain : Text) (ds : List Text) → any_covers domain (clean_domains ds) ≡ any_covers domain ds
unfolding any_covers clean_domains
any_covers-clean_domains domain [] = refl
any_covers-clean_domains domain (d ∷ ds) = elim (Bool-cases (is_empty (strip d))) [
  | inl void ↦ rw (void, covers-canonical domain d void) (any_covers-clean_domains domain ds)
  | inr full ↦
      rw (full, canonical d)
        (ap (λ b. covers domain (lower (strip d)) || b) (any_covers-clean_domains domain ds))
]

-- After the settings of the free-provider filter are saved, what is read back has the switch as it
-- was set, and its patterns cover exactly the domains that the patterns of the form cover, although
-- they are stored stripped, in lower case and without the empty ones.
pub get-set_free_provider_config :
    (by_default enabled : Bool) (domains : List Text) (rows : FilterRows) (domain : Text)
    → let (enabled', domains') =
        get_free_provider_config by_default (set_free_provider_config enabled domains rows) in
      (enabled' ≡ enabled) × (is_free_provider domain domains' ≡ is_free_provider domain domains)
unfolding get_free_provider_config set_free_provider_config is_free_provider
get-set_free_provider_config by_default enabled domains rows domain =
    (refl, any_covers-clean_domains (lower domain) domains)
