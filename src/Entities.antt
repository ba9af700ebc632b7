-- ===== src/Entities.antt =====
-- The rows of the database that the services share (libs/shared/src/database/entities). Text columns
-- are `String`, nullable ones `Option`, and time stamps are milliseconds since 1970.
use discord_bot_backend.Prelude.{ℕ, String, Bool, Option}

pub data UserPlan : Type 0 where
  free pro enterprise : UserPlan

pub data UserStatus : Type 0 where
  active banned : UserStatus

pub record User : Type 0 where
  pub id : String
  pub discord_id : Option String
  pub username : String
  pub discriminator : Option String
  pub avatar_url : Option String
  pub email : Option String
  pub password_hash : Option String
  pub plan : UserPlan
  pub status : UserStatus
  pub created_at : ℕ
  pub last_login_at : Option ℕ

pub data CompanyMemberRole : Type 0 where
  owner admin member : CompanyMemberRole

pub record Company : Type 0 where
  pub id : String
  pub name : String
  pub owner_id : String
  pub created_at : ℕ

pub record CompanyMember : Type 0 where
  pub id : String
  pub company_id : String
  pub user_id : String
  pub role : CompanyMemberRole
  pub joined_at : ℕ

pub record CompanyInvite : Type 0 where
  pub id : String
  pub company_id : String
  pub email : Option String
  pub invitee_display_name : Option String
  pub role : CompanyMemberRole
  pub invite_token : String
  pub invited_by : String
  pub expires_at : ℕ
  pub created_at : ℕ

abbrev pub user_id : User → String
user_id u = u.id

abbrev pub company_id : Company → String
company_id c = c.id

abbrev pub member_id : CompanyMember → String
member_id m = m.id

abbrev pub invite_id : CompanyInvite → String
invite_id i = i.id

pub data GuildStatus : Type 0 where
  active inactive error : GuildStatus

pub data GuildSubscriptionTier : Type 0 where
  free pro enterprise : GuildSubscriptionTier

pub data HistorySyncStatus : Type 0 where
  pending processing completed failed : HistorySyncStatus

pub record Guild : Type 0 where
  pub id : String
  pub discord_guild_id : String
  pub name : String
  pub icon_url : Option String
  pub banner : Option String
  pub owner_id : String
  pub status : GuildStatus
  pub subscription_tier : GuildSubscriptionTier
  pub member_count : ℕ
  pub message_count : ℕ
  pub online_members : Option ℕ
  pub last_activity : Option ℕ
  pub shard_id : Option ℕ
  pub is_bot_in_guild : Bool
  pub created_at : ℕ
  pub history_sync_status : HistorySyncStatus

pub record ServerSettings : Type 0 where
  pub guild_id : String
  pub server_name : String
  pub server_description : Option String
  pub language : String
  pub timezone : String
  pub bot_token_encrypted : Option String
  pub bot_connected : Bool
  pub bot_user_id : Option String
  pub last_connected : Option ℕ
  pub last_sync_at : Option ℕ
  pub data_retention_days : ℕ
  pub anonymize_user_data : Bool
  pub share_analytics : Bool
  pub allow_public_widgets : Bool
