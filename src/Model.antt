-- ===== src/Model.antt =====
-- orchestrator/models.py: the enumerations and the columns of the tables that the other modules
-- read or write; and the settings of orchestrator/config.py that the handlers read.
--
-- A `datetime` is a number of microseconds, an identifier a number, a text its code points.
use hack_bento.Base.{ℕ, ◌*◌, Bool, true, false, List, Option, Text}

pub data UserRole : Type 0 where
  admin user : UserRole

pub data AuthProvider : Type 0 where
  local ldap oauth : AuthProvider

pub data EnvStatus : Type 0 where
  starting running stopping stopped error : EnvStatus

pub data RootfsConversionStatus : Type 0 where
  ready pending converting failed : RootfsConversionStatus

pub data Visibility : Type 0 where
  private protected public : Visibility

pub data CollaboratorRole : Type 0 where
  read read_write : CollaboratorRole

abbrev pub is_admin : UserRole → Bool
is_admin UserRole.admin = true
is_admin UserRole.user = false

pub record User : Type 0 where
  pub id : ℕ
  pub username : Text
  pub display_name : Option Text
  pub needs_username_setup : Bool
  pub email : Option Text
  pub hashed_password : Option Text
  pub role : UserRole
  pub auth_provider : AuthProvider
  pub is_active : Bool
  pub last_login : Option ℕ

pub record Image : Type 0 where
  pub id : ℕ
  pub owner_id : Option ℕ
  pub name : Text
  pub slug : Text
  pub rootfs_conversion_status : RootfsConversionStatus
  pub timeout_minutes : Option ℕ
  pub is_active : Bool
  pub visibility : Visibility
  pub is_attack_machine : Bool

pub record ImageCollaborator : Type 0 where
  pub image_id : ℕ
  pub user_id : ℕ
  pub role : CollaboratorRole

pub record Environment : Type 0 where
  pub id : ℕ
  pub user_id : ℕ
  pub image_id : ℕ
  pub vm_id : Option Text
  pub ip_address : Option Text
  pub status : EnvStatus
  pub started_at : ℕ
  pub expires_at : ℕ
  pub extended_count : ℕ
  pub is_unlimited : Bool

pub record Settings : Type 0 where
  pub default_timeout_minutes : ℕ
  pub attack_machine_timeout_minutes : ℕ
  pub timeout_warning_minutes : ℕ
  pub max_envs_per_user : ℕ
  pub max_envs_total : ℕ
  pub ip_pool_start : Text
  pub ip_pool_end : Text

-- `timedelta(minutes=m)` and `timedelta(seconds=s)`, in microseconds.
abbrev pub seconds : ℕ → ℕ
seconds s = s * 1000000

abbrev pub minutes : ℕ → ℕ
minutes m = seconds (m * 60)

-- `status == EnvStatus.running`, and so on.
abbrev pub is_starting : EnvStatus → Bool
is_starting starting = true
is_starting _ = false

abbrev pub is_running : EnvStatus → Bool
is_running running = true
is_running _ = false

-- `status.in_([EnvStatus.starting, EnvStatus.running])`
abbrev pub is_stoppable : EnvStatus → Bool
is_stoppable starting = true
is_stoppable running = true
is_stoppable _ = false

-- `status.in_([EnvStatus.starting, EnvStatus.running, EnvStatus.stopping])`
abbrev pub is_occupying : EnvStatus → Bool
is_occupying starting = true
is_occupying running = true
is_occupying stopping = true
is_occupying _ = false

-- The database: the rows of the tables, oldest first.
pub record Db : Type 0 where
  pub users : List User
  pub images : List Image
  pub collaborators : List ImageCollaborator
  pub environments : List Environment
