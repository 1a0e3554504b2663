-- ===== src/Trust/Outbound.antt =====
-- What a workstation of themes.py may reach, under the firewall's reading of its outbound rules: the
-- first rule that matches decides, and policy_out=DROP where none does.
use itp2_group6_the_pond.Prelude.{
  ◌≡◌, refl, inl, inr, Bool, true, false, not, ◌&&◌, ◌||◌, Option, none, some, List, [], ◌∷◌, Text,
  codes, ◌==◌, Text_eq, if◌then◌else◌, Bool-cases,
}
use itp2_group6_the_pond.Strings.{is_blank}
use itp2_group6_the_pond.Sessions.{
  RuleAction, accept, drop, EgressRule, private_nets, workstation_egress,
}

-- A packet, as far as rules test it: its protocol, and whether its destination and its port are
-- among those that a text names.
pub record Packet : Type 0 where
  pub protocol : Text
  pub is_to : Text → Bool
  pub is_on : Text → Bool

abbrev pub fits : (Text → Bool) → Option Text → Bool
fits test none = true
fits test (some value) = test value

abbrev pub matches : Packet → EgressRule → Bool
matches packet rule =
    fits (λ t. packet.protocol == t) rule.proto
    && (fits packet.is_to rule.dest && fits packet.is_on rule.dport)

unfoldable pub first_match : Packet → List EgressRule → RuleAction
first_match packet [] = drop
first_match packet (rule ∷ rules) =
    let rest = first_match packet rules in if matches packet rule then rule.action else rest

abbrev pub verdict_of : Bool → RuleAction
verdict_of true = accept
verdict_of false = drop

-- What may leave: TCP to the Docker host; and if there are ports to the internet, the name service
-- anywhere, and TCP on these ports to what is not a private address.
abbrev pub may_leave : Text → Text → Packet → Bool
may_leave docker_host ports packet =
    (packet.protocol == codes "tcp" && packet.is_to docker_host)
    || (not (is_blank ports)
        && (((packet.protocol == codes "udp" || packet.protocol == codes "tcp")
              && packet.is_on (codes "53"))
            || (not (packet.is_to private_nets)
                && (packet.protocol == codes "tcp" && packet.is_on ports))))

decided :
    (closed_net tcp udp docker dns private on : Bool)
    → (if tcp && (docker && true)
        then accept
        else if closed_net
        then (if true && (private && true) then drop else drop)
        else (if udp && (true && dns)
            then accept
            else if tcp && (true && dns)
            then accept
            else if true && (private && true)
            then drop
            else if tcp && (true && on)
            then accept
            else drop))
      ≡ verdict_of (
          (tcp && docker)
          || (not closed_net && (((udp || tcp) && dns) || (not private && (tcp && on)))))
decided true true udp true dns private on = refl
decided true true udp false dns true on = refl
decided true true udp false dns false on = refl
decided true false udp docker dns true on = refl
decided true false udp docker dns false on = refl
decided false true udp true dns private on = refl
decided false true true false true private on = refl
decided false true false false true private on = refl
decided false true true false false true on = refl
decided false true false false false true on = refl
decided false true true false false false true = refl
decided false true true false false false false = refl
decided false true false false false false true = refl
decided false true false false false false false = refl
decided false false true docker true private on = refl
decided false false true docker false true on = refl
decided false false true docker false false on = refl
decided false false false docker dns true on = refl
decided false false false docker dns false on = refl

-- The rules let a packet of a workstation out just if it is TCP to the Docker host or, where ports to
-- the internet are set, goes to port 53 by UDP or TCP, or to one of these ports by TCP and to no
-- private address.
pub workstation_egress-may_leave :
    (docker_host ports : Text) (packet : Packet)
    → first_match packet (workstation_egress docker_host ports)
      ≡ verdict_of (may_leave docker_host ports packet)
unfolding first_match workstation_egress
workstation_egress-may_leave docker_host ports packet = elim (Bool-cases (is_blank ports)) [
  | inl blank ↦ rw blank (
      decided true (packet.protocol == codes "tcp") (packet.protocol == codes "udp")
        (packet.is_to docker_host) (packet.is_on (codes "53")) (packet.is_to private_nets)
        (packet.is_on ports))
  | inr set ↦ rw set (
      decided false (packet.protocol == codes "tcp") (packet.protocol == codes "udp")
        (packet.is_to docker_host) (packet.is_on (codes "53")) (packet.is_to private_nets)
        (packet.is_on ports))
]
