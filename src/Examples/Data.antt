-- ===== src/Examples/Data.antt =====
-- A small database: two contacts on one list, one of them suppressed, and one campaign.
use emailmarketing.Webhook.{PostalWebhookEvent}
use emailmarketing.Sending.SendOne.{Env, World, accepted}
use emailmarketing.Models.{
  Campaign, Db, RecipientStatus, Template, CampaignRecipient, Contact, empty_db, CampaignStatus,
  ContactStatus, SuppressionReason, VerificationResult,
}
use emailmarketing.Text.{Text, codes}
use emailmarketing.Base.{ℕ, true, false, Option, none, some, [], ◌∷◌, ◌++◌}

abbrev pub ann : Text
ann = codes "ann@x.io"

abbrev pub bob : Text
bob = codes "bob@x.io"

abbrev pub token : Text
token = codes "tok"

abbrev pub contact_of : ℕ → Text → Contact
contact_of id email = record {
  id = id;
  email = email;
  first_name = some (codes "A");
  last_name = none;
  custom_fields = [];
  status = ContactStatus.active;
  verification_result = VerificationResult.valid;
  list_id = some 1;
}

abbrev pub campaign : Campaign
campaign = record {
  id = 7;
  name = codes "spring";
  subject = codes "Hi {{first_name}}";
  from_name = codes "Us";
  from_email = codes "us@x.io";
  reply_to = none;
  template_id = some 3;
  list_id = some 1;
  send_time = none;
  send_timezone = none;
  is_planner = false;
  parent_campaign_id = none;
  scheduled_at = none;
  status = CampaignStatus.sending;
  ip_pool = none;
  total_recipients = 0;
  queued_count = 0;
  sent_count = 0;
  delivered_count = 0;
  bounced_count = 0;
  failed_count = 0;
  skipped_count = 0;
}

abbrev pub template : Template
template = record {
  id = 3;
  name = codes "welcome";
  subject_default = none;
  is_html = true;
  body = codes "<p>{{ unsubscribe_url }}</p>";
}

abbrev pub row : RecipientStatus → Option Text → CampaignRecipient
row status message = record {
  id = 1;
  campaign_id = 7;
  contact_id = some 1;
  email_snapshot = ann;
  merge_snapshot = record { first_name = some (codes "A"); last_name = none; custom_fields = [] };
  status = status;
  postal_message_id = message;
  ip_pool = none;
  last_event_at = none;
  error_detail = none;
}

-- before materialization
abbrev pub fresh : Db
fresh = record empty_db {
  contacts = contact_of 1 ann ∷ contact_of 2 bob ∷ [];
  suppressions = record { email = bob; reason = SuppressionReason.manual; detail = none } ∷ [];
  templates = template ∷ [];
  campaigns = campaign ∷ [];
}

abbrev pub with_row : RecipientStatus → Option Text → Db
with_row status message = record fresh {
  recipients = row status message ∷ [];
  next_recipient_id = 2;
}

abbrev pub world : World
world = record {
  db = with_row RecipientStatus.pending none;
  buckets = [];
  counters = [];
  locks = [];
  queue = [];
  outbox = [];
}

abbrev pub env : Env
env = record {
  now = 1000000;
  day = codes "20260101";
  left_of_day = 3600;
  attempts = λ i. record { now = 1000000000000; touched = none };
  redis_reachable = true;
  retries = 0;
  rate_global_per_minute = 100;
  rate_per_domain_per_minute = 20;
  per_ip_daily_cap = 1000;
  send_retry_backoff_seconds = 60;
  send_max_retries = 5;
  escape = λ t. t;
  unsubscribe_url = λ email. codes "https://x.io/u/" ++ email;
  postal = λ m. accepted token;
  unheard = λ m. false;
  before_skip = λ db. db;
  during_send = λ db. db;
}

-- a permanent bounce of the message that was sent to the row
abbrev pub bounce : PostalWebhookEvent
bounce = record {
  event_type = codes "MessageBounced";
  event_uuid = some (codes "u1");
  message_token = some token;
  recipient_email = none;
  status = some (codes "HardFail");
  detail = some (codes "550");
  occurred_at = 1000050;
}
