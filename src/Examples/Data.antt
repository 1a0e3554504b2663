-- ===== src/Examples/Data.antt =====
-- Two accounts, a configuration and a hasher for the examples.
use itp2_group6_the_pond.Prelude.{
  Bool, true, false, none, some, [], ◌∷◌, Text, Text_eq, text_eq_refl, codes, ◌==◌,
}
use itp2_group6_the_pond.Accounts.{pending, approved, User, Users, UserCredential}
use itp2_group6_the_pond.Security.{Hasher, Config}
use itp2_group6_the_pond.Security.Temporary.{IsHasher}
use itp2_group6_the_pond.Admin.{Console}

abbrev pub fresh : UserCredential
fresh = record {
  password_hash = codes "frog";
  password_changed_at = 0;
  must_change_password = false;
  failed_login_count = 0;
  locked_until = none;
}

abbrev pub ada : User
ada = record {
  user_id = 1;
  username = codes "ada";
  display_name = codes "Ada";
  role_name = "sysadmin";
  is_active = true;
  created_at = 0;
  last_login_at = none;
  approval_status = approved;
  approved_at = none;
  approved_by = none;
  credentials = some fresh;
}

abbrev pub bob : User
bob = record {
  user_id = 2;
  username = codes "bob";
  display_name = codes "Bob";
  role_name = "user";
  is_active = true;
  created_at = 0;
  last_login_at = none;
  approval_status = pending;
  approved_at = none;
  approved_by = none;
  credentials = some fresh;
}

abbrev pub users : Users
users = ada ∷ bob ∷ []

abbrev pub console : Console
console = record { users = users; log = [] }

abbrev pub config : Config
config = record {
  max_login_attempts = 3;
  lockout_minutes = 15;
  min_password_length = 8;
  max_field_length = 200;
  idle_timeout_minutes = 30;
}

-- Hashes that keep the password, with a salt in front.
abbrev pub is_hash : Text → Text → Bool
is_hash [] password = false
is_hash (salt ∷ kept) password = kept == password

abbrev pub plain : Hasher
plain = record { generate = λ salt password. salt ∷ password; check = is_hash }

pub plain-IsHasher : IsHasher plain
plain-IsHasher = record { check-generate = λ salt password. text_eq_refl password }
