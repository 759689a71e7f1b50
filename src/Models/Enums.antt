-- ===== src/Models/Enums.antt =====
-- app/models/enums.py. Equality is written out, since each enumeration is compared by `==`.
use emailmarketing.Base.{Bool, true, false, ℕ, ◌==◌}

pub data ContactStatus : Type 0 where
  active bounced unsubscribed complained : ContactStatus

pub data VerificationResult : Type 0 where
  valid invalid unknown pending : VerificationResult

pub data SuppressionReason : Type 0 where
  hard_bounce complaint unsubscribe manual invalid : SuppressionReason

pub data CampaignStatus : Type 0 where
  draft scheduled sending paused completed failed cancelled planner : CampaignStatus

pub data RecipientStatus : Type 0 where
  pending sent delivered bounced failed : RecipientStatus
  skipped_suppressed skipped_frequency skipped_cap : RecipientStatus

pub data ListVerificationStatus : Type 0 where
  pending verifying ready failed : ListVerificationStatus

abbrev pub is_active : ContactStatus → Bool
is_active ContactStatus.active = true
is_active _ = false

abbrev campaign_code : CampaignStatus → ℕ
campaign_code CampaignStatus.draft = 0
campaign_code CampaignStatus.scheduled = 1
campaign_code CampaignStatus.sending = 2
campaign_code CampaignStatus.paused = 3
campaign_code CampaignStatus.completed = 4
campaign_code CampaignStatus.failed = 5
campaign_code CampaignStatus.cancelled = 6
campaign_code CampaignStatus.planner = 7

-- `campaign.status == CampaignStatus.X.value`
abbrev pub is_campaign : CampaignStatus → CampaignStatus → Bool
is_campaign s t = campaign_code s == campaign_code t

abbrev recipient_code : RecipientStatus → ℕ
recipient_code RecipientStatus.pending = 0
recipient_code RecipientStatus.sent = 1
recipient_code RecipientStatus.delivered = 2
recipient_code RecipientStatus.bounced = 3
recipient_code RecipientStatus.failed = 4
recipient_code RecipientStatus.skipped_suppressed = 5
recipient_code RecipientStatus.skipped_frequency = 6
recipient_code RecipientStatus.skipped_cap = 7

-- `cr.status == RecipientStatus.X.value`
abbrev pub is_recipient : RecipientStatus → RecipientStatus → Bool
is_recipient s t = recipient_code s == recipient_code t

-- `TERMINAL_RECIPIENT_STATUSES`
unfoldable pub is_terminal : RecipientStatus → Bool
is_terminal RecipientStatus.sent = true
is_terminal RecipientStatus.delivered = true
is_terminal RecipientStatus.bounced = true
is_terminal RecipientStatus.failed = true
is_terminal RecipientStatus.skipped_suppressed = true
is_terminal RecipientStatus.skipped_frequency = true
is_terminal RecipientStatus.skipped_cap = true
is_terminal _ = false
