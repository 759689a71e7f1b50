-- ===== src/Postal.antt =====
-- app/integrations/postal/client.py and mock.py: how an answer of the HTTP API becomes a token or one
-- of the two exceptions, or raises another one. The packages httpx and json are parameters, by what
-- they give back: no response, or a status code with a body that may be no JSON. The raw message is
-- built by the package email, and is left out.
use emailmarketing.Sending.SendOne.{accepted}
use emailmarketing.Normalize.{domain_of}
use emailmarketing.Sending.SendOne.Message.{SendMessage}
use emailmarketing.Sending.SendOne.{PostalReply, transient, permanent, unexpected}
use emailmarketing.Webhook.Parse.{
  Json, Members, Printer, array, lookup, member, no_members, number, object, payload_of,
  print_option, string, to_str, truthy,
}
use emailmarketing.Text.{◌==◌ as str_eq, Text, codes, is_empty, mem}
use emailmarketing.Base.{
  ℕ, ◌==◌, Bool, ◌||◌, Option, none, some, List, [], ◌∷◌, if◌then◌else◌, ◌++◌, leb, or_default,
  false,
}

pub data HttpAnswer : Type 0 where
  unreachable : HttpAnswer
  response : ℕ → Option Json → HttpAnswer

abbrev pub permanent_codes : List Text
permanent_codes =
    codes "ValidationError"
    ∷ codes "NoRecipients"
    ∷ codes "NoContent"
    ∷ codes "TooManyToAddresses"
    ∷ codes "FromAddressMissing"
    ∷ codes "UnauthenticatedFromAddress"
    ∷ codes "AttachmentMissingName"
    ∷ codes "AttachmentMissingData"
    ∷ []

-- the first value of a dict
unfoldable pub first_value : Members → Option Json
first_value no_members = none
first_value (member k v ms) = lookup k (member k v ms)

-- `str` is Python's text of a value that is no string
module _ (str : Printer) where
  -- `if not token: raise PostalTransientError`
  unfoldable pub token_reply : Option Json → PostalReply
  token_reply none = transient
  token_reply (some token) = if truthy token then accepted (to_str str token) else transient

  -- `info.get("token")`
  unfoldable pub info_reply : Option Json → PostalReply
  info_reply none = transient
  info_reply (some (object info)) = token_reply (lookup (codes "token") info)
  info_reply (some j) = unexpected

  -- `body.get("messages", {}) or {}`, and its `values()`
  unfoldable pub messages_reply : Option Json → PostalReply
  messages_reply none = transient
  messages_reply (some (object messages)) = info_reply (first_value messages)
  messages_reply (some j) = if truthy j then unexpected else transient

  -- `data.get("data", {})` of a success
  unfoldable pub success_reply : Option Json → PostalReply
  success_reply none = transient
  success_reply (some (object body)) = messages_reply (lookup (codes "messages") body)
  success_reply (some j) = unexpected

  -- `code in _PERMANENT_CODES`, which a list or a dict has no hash for
  unfoldable pub code_reply : Json → Text → PostalReply
  code_reply (string code) detail =
      if mem code permanent_codes then permanent (code ++ (codes ": " ++ detail)) else transient
  code_reply (array js) detail = unexpected
  code_reply (object ms) detail = unexpected
  code_reply j detail = transient

  -- `data.get("data", {}) or {}` of an error, whose `get` raises where it is no dict
  unfoldable pub error_reply : Option Members → PostalReply
  error_reply none = unexpected
  error_reply (some err) =
      code_reply (or_default (lookup (codes "code") err) (string (codes "Unknown")))
        (or_default (print_option str (lookup (codes "message") err)) [])

  unfoldable pub is_success : Option Json → Bool
  is_success (some (string s)) = str_eq s (codes "success")
  is_success o = false

  unfoldable pub body_reply : Option Json → PostalReply
  body_reply none = transient
  body_reply (some (object ms)) =
      if is_success (lookup (codes "status") ms)
      then success_reply (lookup (codes "data") ms)
      else error_reply (payload_of (lookup (codes "data") ms))
  body_reply (some j) = unexpected

  unfoldable pub classify_response : ℕ → Option Json → PostalReply
  classify_response code body =
      if leb 500 code || code == 429
      then transient
      else if code == 401 || code == 403
      then permanent (codes "Postal auth failed: HTTP " ++ str (number code))
      else if leb 400 code
      then permanent (codes "Postal rejected request: HTTP " ++ str (number code))
      else body_reply body

  unfoldable pub send_message : (SendMessage → HttpAnswer) → SendMessage → PostalReply
  send_message post m = elim (post m) [
    | unreachable ↦ transient
    | response code body ↦ classify_response code body
  ]

-- `from_full`
unfoldable pub from_full : SendMessage → Text
from_full m =
    if is_empty m.from_name
    then m.from_email
    else m.from_name ++ (codes " <" ++ (m.from_email ++ codes ">"))

-- `MockPostalClient.send_message`, with the fresh token as an argument
unfoldable pub mock_send_message : Text → SendMessage → PostalReply
mock_send_message token m =
    let domain = domain_of m.to in
    if str_eq domain (codes "transient.test")
    then transient
    else if str_eq domain (codes "permanent.test")
    then permanent (codes "mock permanent failure")
    else accepted token
