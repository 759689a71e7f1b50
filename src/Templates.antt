-- ===== src/Templates.antt =====
-- app/services/templates.py: the templates and their check. `escape` is a parameter, as in Merge.
use emailmarketing.Cascades.{uses_template}
use emailmarketing.Sending.SendOne.Validate.{pool_or}
use emailmarketing.Models.{Db, Template, get_template}
use emailmarketing.Merge.{Context, build_context, has_unsubscribe, render, unknown_tags}
use emailmarketing.Text.{◌==◌ as str_eq, Text, codes, strip}
use emailmarketing.Base.{
  ℕ, ◌==◌, ◌+◌, Bool, true, false, not, Option, none, some, List, [], ◌∷◌, if◌then◌else◌, ◌++◌,
  update_where, or_default, where_,
}

pub record TemplateValidation : Type 0 where
  pub has_link : Bool
  pub unknown : List Text

abbrev pub base_tags : List Text
base_tags = codes "first_name" ∷ codes "last_name" ∷ codes "email" ∷ codes "unsubscribe_url" ∷ []

-- the unknown tags as the list of their occurrences, where the source sorts the set
unfoldable pub validate_template : Text → List Text → TemplateValidation
validate_template body allowed_custom = record {
  has_link = has_unsubscribe body;
  unknown = unknown_tags body (base_tags ++ allowed_custom);
}

abbrev pub sample_context : Context
sample_context =
    build_context (codes "jane.doe@example-corp.com") (some (codes "Jane")) (some (codes "Doe"))
      (codes "https://dashboard.cod-st.com/u/SAMPLE") ((codes "company", codes "Example Corp") ∷ [])

unfoldable pub preview : (Text → Text) → Text → Bool → Text
preview escape body html = render escape body sample_context html

-- `type_` is "html" or "plain", and any other text counts as "plain".
unfoldable pub create_template : Text → Text → Option Text → Text → Db → Db × ℕ
create_template name type_ subject_default body db = (
  record db {
    templates =
        db.templates
        ++ record {
          id = db.next_template_id;
          name = pool_or (some (strip name)) (codes "Untitled");
          subject_default = subject_default;
          is_html = str_eq type_ (codes "html");
          body = body;
        }
          ∷ [];
    next_template_id = db.next_template_id + 1;
  },
  db.next_template_id,
)

pub record TemplateFields : Type 0 where
  pub name : Option Text
  pub type_ : Option Text
  pub subject_default : Option Text
  pub body : Option Text

abbrev pub apply_template : TemplateFields → Template → Template
apply_template fields t = record t {
  name = or_default fields.name t.name;
  is_html = or_default (is_html_type fields.type_) t.is_html;
  subject_default = elim fields.subject_default [ none ↦ t.subject_default | some s ↦ some s ];
  body = or_default fields.body t.body;
}
  where
    is_html_type : Option Text → Option Bool
    is_html_type none = none
    is_html_type (some type_) = some (str_eq type_ (codes "html"))

unfoldable pub update_template_found : TemplateFields → Option Template → Db → Db × Bool
update_template_found fields none db = (db, false)
update_template_found fields (some t) db = (
  record db {
    templates = update_where (λ (u : Template). u.id == t.id) (apply_template fields) db.templates;
  },
  true,
)

unfoldable pub update_template : ℕ → TemplateFields → Db → Db × Bool
update_template template_id fields db =
    update_template_found fields (get_template db template_id) db

-- none where the deletion raises, since a campaign refers to the template
unfoldable pub delete_template_found : Option Template → Db → Option (Db × Bool)
delete_template_found none db = some (db, false)
delete_template_found (some t) db =
    if uses_template t.id db
    then none
    else some
        (record db { templates = where_ (λ (u : Template). not (u.id == t.id)) db.templates }, true)

unfoldable pub delete_template : ℕ → Db → Option (Db × Bool)
delete_template template_id db = delete_template_found (get_template db template_id) db
