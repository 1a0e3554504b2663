-- ===== src/Machines/Protected.antt =====
-- No run of provisioner.py makes a call that changes a protected machine.
use itp2_group6_the_pond.Prelude.{
  ℕ, ◌≡◌, inl, inr, false, ◌||◌, ◌&&◌, not, Option, none, some, List, [], ◌∷◌, Text, any, All,
  All-append, one_or_none, filter, Bool-cases, Option-cases,
}
use itp2_group6_the_pond.Provisioner.{
  VmInstance, holds_vmid, refuses, Call, Cloud, Site, perform, refuse_protected, create_instance,
  destroy_instance, apply_network_rule, get_console_ticket, create_session_vnet, Launch, is_given,
  close_launch, get_console_url, tried, with_row, reserve, after_reserve, clone_and_start, retire,
  stop_and_destroy,
}
use itp2_group6_the_pond.Machines.Guards.{
  aims, Keeps, then-Keeps, refuse-Keeps, create_instance-Keeps, destroy_instance-Keeps,
  apply_network_rule-Keeps, get_console_ticket-Keeps, create_session_vnet-Keeps, tried-Keeps,
  drop_vnet-Keeps,
}

-- None of the calls is aimed at a protected machine.
abbrev pub IsSafe : Site → Type 0
IsSafe s = All (λ c. any refuses (aims c) ≡ false) s.calls

pub perform-IsSafe :
    (cloud : Cloud) (c : Call)
    → any refuses (aims c) ≡ false
    → (s : Site) → IsSafe s
    → IsSafe (perform cloud c s).0
unfolding perform
perform-IsSafe cloud c safe s h =
    All-append (λ x. any refuses (aims x) ≡ false) s.calls (c ∷ []) h (safe, tt)

close_launch-IsSafe :
    (launch : Launch) (url : Option Text) (id now : ℕ) (x : Site × Option Unit)
    → IsSafe x.0
    → IsSafe (close_launch launch url id now x).0
close_launch-IsSafe launch url id now (s, none) h = h
close_launch-IsSafe launch none id now (s, some _) h = h
close_launch-IsSafe launch (some url) id now (s, some _) h = h

after_reserve-IsSafe :
    (cloud : Cloud) (launch : Launch) (now : ℕ) (found : Option (VmInstance × List VmInstance))
    (s : Site)
    → refuses launch.template_vmid ≡ false
    → IsSafe s
    → IsSafe (after_reserve cloud launch now found s).0
unfolding with_row Keeps
after_reserve-IsSafe cloud launch now none s template h = h
after_reserve-IsSafe cloud launch now (some (row, table)) s template h =
    close_launch-IsSafe launch (get_console_url cloud launch.node row.proxmox_vmid)
      row.vm_instance_id now (tried cloud launch row.proxmox_vmid (record s { table = table }))
      (tried-Keeps cloud IsSafe (perform-IsSafe cloud) launch row.proxmox_vmid template
        (record s { table = table }) h)

pub clone_and_start-IsSafe :
    (cloud : Cloud) (visible : List ℕ) (launch : Launch) (id now : ℕ) (s : Site)
    → IsSafe s
    → IsSafe (clone_and_start cloud visible launch id now s).0
unfolding clone_and_start refuse_protected
clone_and_start-IsSafe cloud visible launch id now s h =
    elim (Bool-cases
      ((is_given launch.network || is_given launch.firstboot) && not launch.can_write)) [
        | inl bad ↦ rw bad h
        | inr good ↦ elim (Bool-cases (refuses launch.template_vmid)) [
          | inl guarded ↦ rw (good, guarded) h
          | inr template ↦
              rw (good, template)
                (after_reserve-IsSafe cloud launch now (reserve visible launch id s) s template h)
        ]
      ]

retire-IsSafe : (vmid now : ℕ) (s : Site) → IsSafe s → IsSafe (retire vmid now s).0
retire-IsSafe vmid now s h = elim (Option-cases (one_or_none (filter (holds_vmid vmid) s.table))) [
  | inl many ↦ rw (retire, many) h
  | inr (row, found) ↦ rw (retire, found) h
]

pub stop_and_destroy-IsSafe :
    (cloud : Cloud) (vmid : ℕ) (vnet : Option Text) (now : ℕ) (s : Site)
    → IsSafe s
    → IsSafe (stop_and_destroy cloud vmid vnet now s).0
unfolding stop_and_destroy Keeps
stop_and_destroy-IsSafe cloud vmid vnet now =
    refuse-Keeps cloud IsSafe (perform-IsSafe cloud) vmid _ (λ _.
      then-Keeps cloud IsSafe (perform-IsSafe cloud) _ _
        (destroy_instance-Keeps cloud IsSafe (perform-IsSafe cloud) vmid)
        (λ _.
          then-Keeps cloud IsSafe (perform-IsSafe cloud) (retire vmid now) _
            (retire-IsSafe vmid now)
            (λ _. drop_vnet-Keeps cloud IsSafe (perform-IsSafe cloud) vnet)))

-- The calls that the rest of the program makes of this module.
pub data Request : Type 0 where
  creates : Text → ℕ → Request
  launches : List ℕ → Launch → (id now : ℕ) → Request
  destroys : ℕ → Option Text → ℕ → Request
  removes : ℕ → Request
  allows : ℕ → Text → ℕ → Request
  opens : ℕ → Request
  connects : ℕ → Request

unfoldable pub handled : Cloud → Request → Site → Site
handled cloud (creates template vmid) s = (create_instance cloud template vmid s).0
handled cloud (launches visible launch id now) s = (clone_and_start cloud visible launch id now s).0
handled cloud (destroys vmid vnet now) s = (stop_and_destroy cloud vmid vnet now s).0
handled cloud (removes vmid) s = (destroy_instance cloud vmid s).0
handled cloud (allows vmid source port) s = (apply_network_rule cloud vmid source port s).0
handled cloud (opens vmid) s = (get_console_ticket cloud vmid s).0
handled cloud (connects instance_id) s = (create_session_vnet cloud instance_id s).0

unfoldable pub handled_all : Cloud → List Request → Site → Site
handled_all cloud [] s = s
handled_all cloud (r ∷ rs) s = handled_all cloud rs (handled cloud r s)

handled-IsSafe : (cloud : Cloud) (r : Request) (s : Site) → IsSafe s → IsSafe (handled cloud r s)
unfolding handled Keeps
handled-IsSafe cloud (creates template vmid) s h =
    create_instance-Keeps cloud IsSafe (perform-IsSafe cloud) template vmid s h
handled-IsSafe cloud (launches visible launch id now) s h =
    clone_and_start-IsSafe cloud visible launch id now s h
handled-IsSafe cloud (destroys vmid vnet now) s h = stop_and_destroy-IsSafe cloud vmid vnet now s h
handled-IsSafe cloud (removes vmid) s h =
    destroy_instance-Keeps cloud IsSafe (perform-IsSafe cloud) vmid s h
handled-IsSafe cloud (allows vmid source port) s h =
    apply_network_rule-Keeps cloud IsSafe (perform-IsSafe cloud) vmid source port s h
handled-IsSafe cloud (opens vmid) s h =
    get_console_ticket-Keeps cloud IsSafe (perform-IsSafe cloud) vmid s h
handled-IsSafe cloud (connects instance_id) s h =
    create_session_vnet-Keeps cloud IsSafe (perform-IsSafe cloud) instance_id s h

-- Whatever the hypervisor answers and whichever calls raise, no run of requests makes a call that
-- changes or copies a protected machine.
pub handled_all-IsSafe :
    (cloud : Cloud) (rs : List Request) (s : Site) → IsSafe s → IsSafe (handled_all cloud rs s)
unfolding handled_all
handled_all-IsSafe cloud [] s h = h
handled_all-IsSafe cloud (r ∷ rs) s h =
    handled_all-IsSafe cloud rs (handled cloud r s) (handled-IsSafe cloud r s h)
