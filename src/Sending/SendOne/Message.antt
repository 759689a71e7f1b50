-- ===== src/Sending/SendOne/Message.antt =====
-- Phase 3 of `send_one`: the message, and app/integrations/postal/base.py.
use emailmarketing.Base.{ℕ, false, Option, none, some, List, [], ◌∷◌, if◌then◌else◌, ◌++◌}
use emailmarketing.Text.{Text, codes, is_empty}
use emailmarketing.Merge.{render, build_context}
use emailmarketing.Sending.SendOne.Validate.{Payload}

-- `headers` as (name, value) pairs; `tag` is "campaign-<id>:<pool>".
pub record SendMessage : Type 0 where
  pub to : Text
  pub from_email : Text
  pub from_name : Text
  pub subject : Text
  pub plain_body : Option Text
  pub html_body : Option Text
  pub reply_to : Option Text
  pub headers : List (Text × Text)
  pub tag_campaign : ℕ
  pub tag_pool : Text

-- `x or None`
unfoldable pub non_empty : Option Text → Option Text
non_empty none = none
non_empty (some t) = if is_empty t then none else some t

abbrev pub angle : Text → Text
angle url = codes "<" ++ (url ++ codes ">")

module _ (escape : Text → Text) (unsubscribe_url : Text → Text) where
  unfoldable pub build_message : Payload → SendMessage
  unfolding non_empty
  build_message p =
      let unsub = unsubscribe_url p.email in
      let ctx =
        build_context p.email p.merge.first_name p.merge.last_name unsub p.merge.custom_fields in
      let rendered_body = render escape p.tmpl_body ctx p.is_html in
      record {
        to = p.email;
        from_email = p.from_email;
        from_name = p.from_name;
        subject = render escape p.subject_tpl ctx false;
        plain_body = if p.is_html then none else some rendered_body;
        html_body = if p.is_html then some rendered_body else none;
        reply_to = non_empty p.reply_to;
        headers =
            (codes "List-Unsubscribe", angle unsub)
            ∷ (codes "List-Unsubscribe-Post", codes "List-Unsubscribe=One-Click")
            ∷ [];
        tag_campaign = p.campaign_id;
        tag_pool = p.pool;
      }
