-- ===== src/Webhook/Laws.antt =====
-- Which requests the webhook endpoint accepts.
use emailmarketing.Base.{◌≡◌, not, ◌&&◌, ◌||◌, arith}
use emailmarketing.Text.{Text, is_empty}
use emailmarketing.Webhook.{header_matches, verify_webhook, Option}

-- A request is accepted exactly if a secret is configured and one of the three credentials,
-- stripped, is the HMAC of the body or the secret.
pub verify_webhook_lem :
    (hmac : Text → Text → Text) (raw secret : Text) (signature header token : Option Text)
    → verify_webhook hmac raw secret signature header token ≡ (
        not (is_empty secret)
        && (header_matches signature (hmac secret raw)
            || header_matches header secret
            || header_matches token secret))
unfolding verify_webhook
verify_webhook_lem hmac raw secret signature header token = ground arith
