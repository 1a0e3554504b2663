-- ===== src/Sessions/Egress.antt =====
-- What a workstation may reach, and the command that it runs at its first boot: _workstation_egress
-- and _handout_command of themes.py, with shlex.quote.
use itp2_group6_the_pond.Prelude.{
  ℕ, Bool, true, false, ◌&&◌, ◌||◌, not, Option, none, some, List, [], ◌∷◌, ◌++◌, Text, codes,
  Text_eq, ◌==◌, ℕ_eq, all, any, leb, if◌then◌else◌,
}
use itp2_group6_the_pond.Strings.{is_blank}
use itp2_group6_the_pond.Sessions.Tables.{Env, Assignment, PublishedChallenge}

pub data RuleAction : Type 0 where
  accept drop : RuleAction

-- A rule: `none` stands for a key that the dictionary does not have, and matches everything.
pub record EgressRule : Type 0 where
  pub action : RuleAction
  pub proto : Option Text
  pub dest : Option Text
  pub dport : Option Text

unfoldable pub private_nets : Text
private_nets = codes "10.0.0.0/8,172.16.0.0/12,192.168.0.0/16,100.64.0.0/10,169.254.0.0/16"

abbrev pub dns_rule : Text → EgressRule
dns_rule proto = record {
  action = accept;
  proto = some proto;
  dest = none;
  dport = some (codes "53");
}

abbrev pub dns_rules : Bool → List EgressRule
dns_rules true = dns_rule (codes "udp") ∷ dns_rule (codes "tcp") ∷ []
dns_rules false = []

abbrev pub internet_rules : Bool → Text → List EgressRule
internet_rules true ports =
    record { action = accept; proto = some (codes "tcp"); dest = none; dport = some ports } ∷ []
internet_rules false ports = []

-- _workstation_egress, on the address of the Docker host and the ports to the internet
unfoldable pub workstation_egress : Text → Text → List EgressRule
workstation_egress docker_host ports =
    record { action = accept; proto = some (codes "tcp"); dest = some docker_host; dport = none }
    ∷ (dns_rules (not (is_blank ports))
        ++ (record { action = drop; proto = none; dest = some private_nets; dport = none }
            ∷ internet_rules (not (is_blank ports)) ports))

abbrev pub verdict_text : RuleAction → Text
verdict_text accept = codes "ACCEPT"
verdict_text drop = codes "DROP"

abbrev pub key_text : Text → Option Text → Text
key_text key none = []
key_text key (some value) = b',' ∷ (key ++ (b'=' ∷ value))

-- A rule as the text that the provisioner posts.
unfoldable pub rule_text : EgressRule → Text
rule_text r =
    verdict_text r.action
    ++ (key_text (codes "proto") r.proto
        ++ (key_text (codes "dest") r.dest ++ key_text (codes "dport") r.dport))

-- The characters that shlex.quote leaves as they are: [a-zA-Z0-9@%+=:,./_-]
unfoldable pub is_safe_char : ℕ → Bool
is_safe_char c =
    (leb b'a' c && leb c b'z')
    || (leb b'A' c && leb c b'Z')
    || (leb b'0' c && leb c b'9')
    || any (λ d. d == c) (codes "@%+=:,./_-")

-- s.replace("'", "'\"'\"'")
unfoldable pub escape_quotes : Text → Text
escape_quotes [] = []
escape_quotes (c ∷ cs) =
    let rest = escape_quotes cs in if c == 39 then 39 ∷ 34 ∷ 39 ∷ 34 ∷ 39 ∷ rest else c ∷ rest

-- shlex.quote
unfoldable pub quote : Text → Text
quote t =
    if is_blank t
    then 39 ∷ 39 ∷ []
    else if all is_safe_char t
    then t
    else 39 ∷ (escape_quotes t ++ (39 ∷ []))

-- str.rstrip("/"): a slash in front of text that was stripped to nothing goes too.
abbrev pub cons_slash : ℕ → Text → Text
cons_slash c [] = if c == b'/' then [] else c ∷ []
cons_slash c (d ∷ ds) = c ∷ d ∷ ds

unfoldable pub strip_slashes : Text → Text
strip_slashes [] = []
strip_slashes (c ∷ cs) = cons_slash c (strip_slashes cs)

-- _handout_command
unfoldable pub handout_command : Env → Assignment → PublishedChallenge → Option Text
handout_command env assignment challenge =
    if is_blank env.handout_template || not (assignment.template_name == env.handout_template)
    then none
    else some (
        codes "wget -q -r -np -nH --cut-dirs=1 -R 'index.html*' --tries=10 --waitretry=3 "
        ++ (codes "--retry-connrefused -P "
            ++ (quote
                  (codes "/home/" ++ (env.handout_user ++ (codes "/Desktop/" ++ challenge.title)))
                ++ (b' '
                    ∷ (quote (
                          strip_slashes env.handout_base_url
                          ++ (b'/' ∷ (challenge.title ++ (b'/' ∷ []))))
                        ++ (codes "; chown -R "
                            ++ (quote env.handout_user
                                ++ (b':'
                                    ∷ (quote env.handout_user
                                        ++ (b' '
                                            ∷ quote (
                                                codes "/home/"
                                                ++ (env.handout_user ++ codes "/Desktop"))))))))))))
