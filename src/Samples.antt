-- ===== src/Samples.antt =====
-- Data for the tests: two users and an administrator, two projects, and a pool of three addresses.
use hack_bento.Base.{ℕ, true, false, none, some, List, [], ◌∷◌, Text, codes}
use hack_bento.Model.{
  User, UserRole, AuthProvider, Image, Visibility, RootfsConversionStatus, Environment, EnvStatus,
  Settings, Db,
}
use hack_bento.Watchdog.{World}

abbrev pub cfg : Settings
cfg = record {
  default_timeout_minutes = 60;
  attack_machine_timeout_minutes = 120;
  timeout_warning_minutes = 10;
  max_envs_per_user = 2;
  max_envs_total = 3;
  ip_pool_start = codes "10.0.0.254";
  ip_pool_end = codes "10.0.1.0";
}

abbrev pub alice : User
alice = record {
  id = 1;
  username = codes "alice";
  display_name = none;
  needs_username_setup = false;
  email = none;
  hashed_password = none;
  role = UserRole.user;
  auth_provider = AuthProvider.ldap;
  is_active = true;
  last_login = none;
}

abbrev pub bob : User
bob = record alice { id = 2; username = codes "bob" }

abbrev pub root : User
root = record alice { id = 3; username = codes "root"; role = UserRole.admin }

abbrev pub lab : Image
lab = record {
  id = 5;
  owner_id = some 1;
  name = codes "Lab";
  slug = codes "lab";
  rootfs_conversion_status = RootfsConversionStatus.ready;
  timeout_minutes = some 30;
  is_active = true;
  visibility = Visibility.private;
  is_attack_machine = false;
}

abbrev pub shown : Image
shown = record lab {
  id = 6;
  slug = codes "shown";
  visibility = Visibility.public;
  timeout_minutes = none;
}

abbrev pub machine : Image
machine = record lab {
  id = 7;
  owner_id = none;
  slug = codes "kali";
  visibility = Visibility.public;
  is_attack_machine = true;
}

abbrev pub empty_db : Db
empty_db = record {
  users = alice ∷ bob ∷ root ∷ [];
  images = lab ∷ shown ∷ machine ∷ [];
  collaborators = [];
  environments = [];
}

abbrev pub booked : ℕ → Text → Environment
booked id ip = record {
  id = id;
  user_id = 1;
  image_id = 5;
  vm_id = none;
  ip_address = some ip;
  status = EnvStatus.starting;
  started_at = 1000;
  expires_at = 1800001000;
  extended_count = 0;
  is_unlimited = false;
}

abbrev pub env_a : Environment
env_a = booked 1 (codes "10.0.0.254")

abbrev pub env_b : Environment
env_b = booked 2 (codes "10.0.0.255")

abbrev pub with_envs : List Environment → Db
with_envs rows = record empty_db { environments = rows }

abbrev pub idle : World
idle = record { db = empty_db; vms = [] }
