-- ===== src/Webhook/Parse.antt =====
-- app/integrations/postal/webhook.py: `parse_event` and its helpers on a JSON value. Numbers are
-- natural here: a float of a timestamp is read to whole seconds.
pub mod Laws
use emailmarketing.Webhook.{PostalWebhookEvent}
use emailmarketing.Text.{◌==◌ as str_eq, Text, is_empty, codes, lower, strip}
use emailmarketing.Base.{
  ℕ, zero, suc, ◌==◌, ◌+◌, ◌-◌, ◌≤◌, ◌<◌, ◌≡◌, refl, Bool, true, false, ◌&&◌, ◌||◌, not, Option,
  none, some, List, [], ◌∷◌, arith, inl, inr, if◌then◌else◌, Bool-cases, Option-cases, ◌++◌, ◌*◌,
  ◌/◌, is_some, or_default, leb,
}

mutual
  pub data Json : Type 0 where
    null : Json
    bool : Bool → Json
    number : ℕ → Json
    string : Text → Json
    array : Items → Json
    object : Members → Json

  pub data Items : Type 0 where
    none_left : Items
    item : Json → Items → Items

  pub data Members : Type 0 where
    no_members : Members
    member : Text → Json → Members → Members

-- `d.get(k)`, the last value where a key is repeated
unfoldable pub lookup : Text → Members → Option Json
lookup k no_members = none
lookup k (member j v ms) =
    let rest = lookup k ms in if is_some rest then rest else if str_eq j k then some v else none

-- a value that counts as true
unfoldable pub truthy : Json → Bool
truthy null = false
truthy (bool b) = b
truthy (number n) = not (n == 0)
truthy (string s) = not (is_empty s)
truthy (array none_left) = false
truthy (array (item j js)) = true
truthy (object no_members) = false
truthy (object (member k v ms)) = true

-- The text `str(value)` of what is no string, by the language.
abbrev pub Printer : Type 0
Printer = Json → Text

unfoldable pub to_str : Printer → Json → Text
to_str str (string s) = s
to_str str j = str j

-- `x or y` on values that may be missing
unfoldable pub either : Option Json → Option Json → Option Json
either none y = y
either (some x) y = if truthy x then some x else y

-- the value where it counts as true
unfoldable pub when_truthy : Option Json → Option Json
when_truthy none = none
when_truthy (some j) = if truthy j then some j else none

unfoldable pub field_of : Text → Option Json → Option Json
field_of k (some (object ms)) = lookup k ms
field_of k _ = none

unfoldable pub print_option : Printer → Option Json → Option Text
print_option str none = none
print_option str (some j) = some (to_str str j)

-- `_first_token` and `_first_to`, over the message and the original message
unfoldable pub first_of : Text → Option Json → Option Json → Option Json
first_of k message original =
    either (when_truthy (field_of k message)) (when_truthy (field_of k original))

-- `is not None`
unfoldable pub present : Option Json → Option Json
present (some null) = none
present o = o

-- `details or output or message`, where an object gives its token or its text
unfoldable pub detail_of : Printer → Option Json → Option Text
detail_of str (some (object ms)) = elim (when_truthy (lookup (codes "token") ms)) [
  | some t ↦ some (to_str str t)
  | none ↦ some (str (object ms))
]
detail_of str (some null) = none
detail_of str (some j) = some (to_str str j)
detail_of str none = none

-- the end of the year 9999, after which `fromtimestamp` raises ValueError
abbrev pub last_second : ℕ
last_second = 253402300799

unfoldable pub at_time : ℕ → ℕ → ℕ
at_time now n = if leb n last_second then n else now

-- `float(ts)`, or the clock where it is missing or no number; texts of numbers are read by `read`
unfoldable pub time_of : (Text → Option ℕ) → ℕ → Option Json → ℕ
time_of read now (some (number n)) = at_time now n
time_of read now (some (bool b)) = if b then 1 else 0
time_of read now (some (string s)) = at_time now (or_default (read s) now)
time_of read now _ = now

-- `str(body.get("event", "")) or "Unknown"`
unfoldable pub event_name : Printer → Option Json → Text
event_name str none = codes "Unknown"
event_name str (some j) = let s = to_str str j in if is_empty s then codes "Unknown" else s

-- `payload.get("payload", {}) or {}`; a payload that is no object raises, which gives none
unfoldable pub payload_of : Option Json → Option Members
payload_of none = some no_members
payload_of (some (object ms)) = some ms
payload_of (some j) = if truthy j then none else some no_members

abbrev pub lower_strip : Option Text → Option Text
lower_strip none = none
lower_strip (some t) = some (lower (strip t))

module _ (str : Printer) (read : Text → Option ℕ) (now : ℕ) where
  unfoldable pub event_from : Members → Members → PostalWebhookEvent
  event_from body payload =
      let message = lookup (codes "message") payload in
      let original = lookup (codes "original_message") payload in
      record {
        event_type = event_name str (lookup (codes "event") body);
        event_uuid = print_option str (when_truthy (lookup (codes "uuid") body));
        message_token = print_option str (first_of (codes "token") message original);
        recipient_email = lower_strip (print_option str (first_of (codes "to") message original));
        status = print_option str (present (lookup (codes "status") payload));
        detail = detail_of str (
            either (lookup (codes "details") payload)
              (either (lookup (codes "output") payload) message));
        occurred_at =
            time_of read now
              (either (lookup (codes "timestamp") body) (lookup (codes "timestamp") payload));
      }

  unfoldable pub parse_found : Members → Option Members → Option PostalWebhookEvent
  parse_found body none = none
  parse_found body (some payload) = some (event_from body payload)

  unfoldable pub parse_event : Members → Option PostalWebhookEvent
  parse_event body = parse_found body (payload_of (lookup (codes "payload") body))
