-- ===== src/Examples/Contacts.antt =====
-- Imports and the removal of an address.
use emailmarketing.ConfigStore.Laws.{get-set_free_provider_config}
use emailmarketing.ConfigStore.{get_free_provider_config, set_free_provider_config}
use emailmarketing.Import.Suppressed.{IsWelcome, import_into_list-IsWelcome}
use emailmarketing.Lists.Laws.{add_contact-remove_and_suppress}
use emailmarketing.Suppression.{begin}
use emailmarketing.Lists.{remove_and_suppress, add_contact, suppressed}
use emailmarketing.Examples.Data.{fresh, ann}
use emailmarketing.Normalize.{normalize_email, validate_syntax, checked}
use emailmarketing.ConfigStore.{is_free_provider, any_covers, covers}
use emailmarketing.Import.Unique.{UniqueContacts, import_into_list-UniqueContacts}
use emailmarketing.Import.{import_into_list, accepted}
use emailmarketing.Text.{
  ◌==◌ as str_eq, Text, codes, strip, lower, lower_char, lstrip, rstrip, is_space, is_empty,
  contains, ends_with, starts_with, drop_last,
}
use emailmarketing.Base.{◌≡◌, refl, true, none, some, List, [], ◌∷◌, All, false}

abbrev file : List (List Text)
file =
    (codes "Email" ∷ codes "First name" ∷ [])
    ∷ (codes "cy@x.io" ∷ codes "Cy" ∷ [])
    ∷ (codes " CY@x.io" ∷ [])
    ∷ (codes "bob@x.io" ∷ [])
    ∷ []

import_into_list-UniqueContacts_example :
    UniqueContacts
      (import_into_list
        (λ t. some t)
        (λ d ps. false)
        true
        (codes "gmx.*" ∷ [])
        1
        file
        none
        none
        fresh).0
unfolding str_eq
import_into_list-UniqueContacts_example =
    import_into_list-UniqueContacts (λ t. some t) (λ d ps. false) true (codes "gmx.*" ∷ []) 1 file
      none none fresh (refl, (refl, tt))

gmx_is_free : is_free_provider (codes "GMX.de") (codes "gmx.*" ∷ []) ≡ true
unfolding is_free_provider any_covers covers lower lower_char strip lstrip rstrip is_space is_empty
    ends_with starts_with drop_last
gmx_is_free = refl

add_contact-remove_and_suppress_example :
    let db = (remove_and_suppress none ann (begin fresh)).0.current in
    add_contact (λ t. some t) 1 (codes " ANN@x.io") none none db ≡ (db, suppressed)
unfolding normalize_email strip lower lower_char lstrip rstrip is_space is_empty contains accepted
    validate_syntax checked
add_contact-remove_and_suppress_example =
    add_contact-remove_and_suppress (λ t. some t) none ann (codes " ANN@x.io") ann ann 1 none none
      (begin fresh) refl (λ other raced. cc) refl refl refl

import_into_list-IsWelcome_example :
    All
      (IsWelcome fresh)
      (import_into_list
        (λ t. some t)
        (λ d ps. false)
        true
        (codes "gmx.*" ∷ [])
        1
        file
        none
        none
        fresh).0.contacts
import_into_list-IsWelcome_example =
    import_into_list-IsWelcome (λ t. some t) (λ d ps. false) true (codes "gmx.*" ∷ []) 1 file none
      none fresh

get-set_free_provider_config_example :
    let rows =
      set_free_provider_config true
        (codes " GMX.*" ∷ [] ∷ [])
        (record { enabled = none; domains = none }) in
    let (on, patterns) = get_free_provider_config false rows in
    (on ≡ true)
    × (is_free_provider (codes "gmx.de") patterns
        ≡ is_free_provider (codes "gmx.de") (codes " GMX.*" ∷ [] ∷ []))
get-set_free_provider_config_example =
    get-set_free_provider_config false true (codes " GMX.*" ∷ [] ∷ [])
      (record { enabled = none; domains = none }) (codes "gmx.de")
