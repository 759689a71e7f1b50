-- ===== src/Api.antt =====
-- The endpoints outside the pages: app/api/unsubscribe.py and app/api/webhooks.py. A request is a
-- session that is committed at its end; a rendered page is reduced to its data.
pub mod Keys
pub mod Status
use emailmarketing.Webhook.{verify_webhook}
use emailmarketing.Tokens.{read_unsubscribe_token}
use emailmarketing.Models.{Db, SuppressionReason}
use emailmarketing.Webhook.Parse.{Json, Members, object}
use emailmarketing.Text.{Text, codes}
use emailmarketing.Suppression.{Session, Race, suppress, begin}
use emailmarketing.Base.{
  ℕ, zero, suc, ◌==◌, ◌+◌, ◌-◌, ◌≤◌, ◌<◌, ◌≡◌, refl, Bool, true, false, ◌&&◌, ◌||◌, not, Option,
  none, some, List, [], ◌∷◌, arith, inl, inr, if◌then◌else◌, Bool-cases, Option-cases, ◌++◌, ◌*◌,
  ◌/◌,
}

-- what the commit at the end of the request leaves
unfoldable pub of_session : Session × Bool → Db
of_session r = r.0.current

module _ (dumps : Text → Text) (loads : Text → Option Text) where
  unfoldable pub unsubscribe_found : Race → Option Text → Db → Db × Option Text
  unsubscribe_found race none db = (db, none)
  unsubscribe_found race (some email) db = (
    of_session (
        suppress race email SuppressionReason.unsubscribe (some (codes "unsubscribe link")) true
          (begin db)),
    some email,
  )

  -- the confirmation page, which changes nothing
  unfoldable pub unsubscribe_confirm : Text → Option Text
  unsubscribe_confirm token = read_unsubscribe_token dumps loads token

  unfoldable pub unsubscribe : Race → Text → Db → Db × Option Text
  unsubscribe race token db = unsubscribe_found race (read_unsubscribe_token dumps loads token) db

pub data HookResponse : Type 0 where
  unauthorized bad_request : HookResponse
  -- what `process_webhook` is enqueued with
  queued : Members → HookResponse
  -- a JSON value that is no object is enqueued too, and its task raises
  queued_other : HookResponse

unfoldable pub hook_body : Option Json → HookResponse
hook_body none = bad_request
hook_body (some (object ms)) = queued ms
hook_body (some j) = queued_other

-- `decode` is `json.loads` of the raw body, none where it raises
unfoldable pub postal_webhook :
    (Text → Text → Text)
    → (Text → Option Json)
    → Text
    → Text
    → Option Text
    → Option Text
    → Option Text
    → HookResponse
postal_webhook hmac decode raw secret signature_header secret_header query_token =
    if not (verify_webhook hmac raw secret signature_header secret_header query_token)
    then unauthorized
    else hook_body (decode raw)
