-- ===== src/Models/Rows.antt =====
-- The rows of the tables: app/models/{contact,contact_list,suppression,template,campaign,planner}.py.
use emailmarketing.Base.{ℕ, Bool, Option, List}
use emailmarketing.Text.{Text}
use emailmarketing.Models.Enums.{
  ContactStatus, VerificationResult, SuppressionReason, CampaignStatus, RecipientStatus,
  ListVerificationStatus,
}

-- a JSON object of texts
abbrev pub Fields : Type 0
Fields = List (Text × Text)

pub record Contact : Type 0 where
  pub id : ℕ
  pub email : Text
  pub first_name : Option Text
  pub last_name : Option Text
  pub custom_fields : Fields
  pub status : ContactStatus
  pub verification_result : VerificationResult
  pub list_id : Option ℕ

pub record ContactList : Type 0 where
  pub id : ℕ
  pub name : Text
  pub contact_count : ℕ
  pub verification_status : ListVerificationStatus

pub record Suppression : Type 0 where
  pub email : Text
  pub reason : SuppressionReason
  pub detail : Option Text

pub record Template : Type 0 where
  pub id : ℕ
  pub name : Text
  pub subject_default : Option Text
  pub is_html : Bool
  pub body : Text

pub record Campaign : Type 0 where
  pub id : ℕ
  pub name : Text
  pub subject : Text
  pub from_name : Text
  pub from_email : Text
  pub reply_to : Option Text
  pub template_id : Option ℕ
  pub list_id : Option ℕ
  pub send_time : Option Text
  pub send_timezone : Option Text
  pub is_planner : Bool
  pub parent_campaign_id : Option ℕ
  pub scheduled_at : Option ℕ
  pub status : CampaignStatus
  pub ip_pool : Option Text
  pub total_recipients : ℕ
  pub queued_count : ℕ
  pub sent_count : ℕ
  pub delivered_count : ℕ
  pub bounced_count : ℕ
  pub failed_count : ℕ
  pub skipped_count : ℕ

-- `merge_snapshot`
pub record MergeSnapshot : Type 0 where
  pub first_name : Option Text
  pub last_name : Option Text
  pub custom_fields : Fields

pub record CampaignRecipient : Type 0 where
  pub id : ℕ
  pub campaign_id : ℕ
  pub contact_id : Option ℕ
  pub email_snapshot : Text
  pub merge_snapshot : MergeSnapshot
  pub status : RecipientStatus
  pub postal_message_id : Option Text
  pub ip_pool : Option Text
  pub last_event_at : Option ℕ
  pub error_detail : Option Text

pub record EmailEvent : Type 0 where
  pub campaign_recipient_id : ℕ
  pub type : Text
  pub status : Option Text
  pub provider_event_id : Option Text
  pub occurred_at : ℕ

pub record CampaignList : Type 0 where
  pub campaign_id : ℕ
  pub list_id : ℕ

pub record PlannerPlacement : Type 0 where
  pub id : ℕ
  pub campaign_id : ℕ
  pub week : ℕ
  pub weekday : ℕ

pub record CampaignContactSend : Type 0 where
  pub campaign_id : ℕ
  pub contact_id : ℕ
  pub last_sent_at : ℕ

pub record IpWarmState : Type 0 where
  pub ip : Text
  pub pool : Option Text
  pub warmed_since : ℕ
  pub is_active : Bool

pub data OverflowPolicy : Type 0 where
  hard_stop defer : OverflowPolicy

-- the app_settings row `planner_config`: a JSON object whose keys may be missing
pub record PlannerSettings : Type 0 where
  pub frequency_interval_days : Option ℕ
  pub warming_ramp : Option (List ℕ)
  pub warming_full : Option ℕ
  pub send_rate_per_minute : Option ℕ
  pub overflow_policy : Option OverflowPolicy
