-- ===== src/Proxmox/Settings.antt =====
-- The settings of proxmox.py: parse_token_id, protected_vmids and settings_problems. A setting that
-- is not set is the empty text.
use itp2_group6_the_pond.Prelude.{
  ℕ, zero, suc, ◌-◌, ◌⊎◌, inl, inr, Bool, true, false, ◌&&◌, ◌||◌, not, Option, none, some, List,
  [], ◌∷◌, ◌++◌, Text, codes, Text_eq, ◌==◌, ℕ_eq, all, leb, ltb, if◌then◌else◌,
}
use itp2_group6_the_pond.Strings.{is_space, lower, partition, is_blank, comma_list, int_of}

-- The settings that the adapter reads.
pub record ProxmoxConfig : Type 0 where
  pub token_id : Text
  pub token_secret : Text
  pub pool : Text
  pub template_pool : Text
  pub ca_bundle : Text
  pub is_production : Bool
  pub verify_ssl : Bool
  pub protected : Text
  pub host : Text
  pub node : Text
  pub storage : Text
  pub sdn_zone : Text
  pub workstation_zone : Text
  pub template_bridges : Text
  pub template_storages : Text
  pub privilege_check_ttl : ℕ

-- The messages of the settings.
pub data SettingsProblem : Type 0 where
  token_missing token_malformed token_pam secret_missing pool_missing : SettingsProblem
  ca_missing tls_off_production protected_bad : SettingsProblem

-- [^\s@!:]
unfoldable pub is_user_char : ℕ → Bool
is_user_char c = not (is_space c || c == b'@' || c == b'!' || c == b':')

-- [A-Za-z]
unfoldable pub is_letter : ℕ → Bool
is_letter c = (leb b'A' c && leb c b'Z') || (leb b'a' c && leb c b'z')

-- [A-Za-z0-9._-]
unfoldable pub is_token_char : ℕ → Bool
is_token_char c = is_letter c || (leb b'0' c && leb c b'9') || c == b'.' || c == b'_' || c == b'-'

unfoldable pub is_name : Text → Bool
is_name [] = false
is_name (c ∷ cs) = is_letter c && all is_token_char cs

abbrev pub token_named : Text → Text → Option Text → Option (Text × Text × Text)
token_named user realm none = none
token_named user realm (some name) =
    if not (is_blank user) && all is_user_char user && is_name realm && is_name name
    then some (user, realm, name)
    else none

-- _TOKEN_ID_RE.fullmatch: the user, the realm and the name. The user has no @ and the realm has no
-- !, so the first of each separates them.
unfoldable pub match_token : Text → Option (Text × Text × Text)
match_token t =
    let (user, rest) = partition b'@' t in
    elim rest [
      | none ↦ none
      | some realm_name ↦
          let (realm, name) = partition b'!' realm_name in token_named user realm name
    ]

-- parse_token_id: ("user@realm", "tokenname"), or the message of the exception.
unfoldable pub parse_token_id : Text → SettingsProblem ⊎ (Text × Text)
parse_token_id t = if is_blank t then inl token_missing else elim (match_token t) [
  | none ↦ inl token_malformed
  | some (user, realm, name) ↦
      if lower realm == codes "pam" then inl token_pam else inr (user ++ (b'@' ∷ realm), name)
]

-- range(low, low + n)
unfoldable pub range_from : ℕ → ℕ → List ℕ
range_from low zero = []
range_from low (suc n) = low ∷ range_from (suc low) n

-- The two ends of a part; `none` is ValueError. An end behind a second minus sign is negative, so
-- below the first: int_of has no value for it, and neither has the source.
unfoldable pub ends_of : Text → Option (ℕ × ℕ)
ends_of part =
    let (low, rest) = partition b'-' part in
    elim (int_of low) [
      | none ↦ none
      | some l ↦ elim rest [
        | none ↦ some (l, l)
        | some high ↦ elim (int_of high) [
          | none ↦ none
          | some h ↦ if ltb h l then none else some (l, h)
        ]
      ]
    ]

abbrev pub vmids_between : ℕ × ℕ → List ℕ
vmids_between (low, high) = range_from low (suc high - low)

-- The loop of protected_vmids over the parts that are not blank; `none` is ProxmoxError.
unfoldable pub protected_parts : List Text → Option (List ℕ)
protected_parts [] = some []
protected_parts (part ∷ parts) = elim (ends_of part) [
  | none ↦ none
  | some ends ↦ elim (protected_parts parts) [
    | none ↦ none
    | some vmids ↦ some (vmids_between ends ++ vmids)
  ]
]

-- protected_vmids(spec)
unfoldable pub read_protected : Text → Option (List ℕ)
read_protected spec = protected_parts (comma_list spec)

abbrev pub token_problems : SettingsProblem ⊎ (Text × Text) → List SettingsProblem
token_problems (inl problem) = problem ∷ []
token_problems (inr parsed) = []

abbrev pub protected_problems : Option (List ℕ) → List SettingsProblem
protected_problems none = protected_bad ∷ []
protected_problems (some vmids) = []

abbrev pub problem_if : Bool → SettingsProblem → List SettingsProblem
problem_if true p = p ∷ []
problem_if false p = []

-- settings_problems; `is_file` is os.path.isfile.
unfoldable pub settings_problems : (Text → Bool) → ProxmoxConfig → List SettingsProblem
settings_problems is_file cfg =
    token_problems (parse_token_id cfg.token_id)
    ++ (problem_if (is_blank cfg.token_secret) secret_missing
        ++ (problem_if (is_blank cfg.pool) pool_missing
            ++ (problem_if (not (is_blank cfg.ca_bundle) && not (is_file cfg.ca_bundle)) ca_missing
                ++ (problem_if (cfg.is_production && is_blank cfg.ca_bundle && not cfg.verify_ssl)
                      tls_off_production
                    ++ protected_problems (read_protected cfg.protected)))))
