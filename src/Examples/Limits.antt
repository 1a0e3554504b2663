-- ===== src/Examples/Limits.antt =====
-- Rate limits on a few concrete requests.
use mathlib.Core.Path.{subst}
use itp2_group6_the_pond.Prelude.{
  ℕ, ◌+◌, ◌≤◌, ◌≡◌, refl, true, false, some, List, [], ◌∷◌, String_eq, Text_eq, codes, text_eq,
  Clock, arith, All, count, filter,
}
use itp2_group6_the_pond.Throttle.{
  ThrottleEvent, Table, check, limits, bucket_of, record_event, hit, check_known, is_live, wait_for,
  oldest,
}
use itp2_group6_the_pond.Throttle.Window.{
  Request, attempt, forgive, tidy, serve, serve_all, IsTimely, IsBounded, nil-IsBounded,
  serve_all-IsBounded,
}
use itp2_group6_the_pond.Throttle.Waiting.{check-after-wait}

abbrev at_time : ℕ → Clock
at_time t = λ i. t + i

abbrev sign_up : ℕ → Request
sign_up t = attempt "register_ip" (codes "10.0.0.7") (at_time t)

-- Five sign-ups fill the limit of register_ip.
abbrev sign_ups : List Request
sign_ups = sign_up 1 ∷ sign_up 2 ∷ sign_up 3 ∷ sign_up 4 ∷ sign_up 5 ∷ []

sign_ups-IsTimely : All IsTimely sign_ups
sign_ups-IsTimely = omega arith

abbrev mixed : List Request
mixed = sign_up 1 ∷ forgive "login_ip" (codes "10.0.0.7") ∷ tidy 3600 9 ∷ sign_up 12 ∷ []

mixed-IsTimely : All IsTimely mixed
mixed-IsTimely = omega arith

serve_all-IsBounded_example : IsBounded (serve_all mixed [])
serve_all-IsBounded_example = serve_all-IsBounded mixed [] mixed-IsTimely nil-IsBounded

abbrev row_at : ℕ → ThrottleEvent
row_at t = record { bucket = codes "register_ip:10.0.0.7"; occurred_at = t }

abbrev full : Table
full = row_at 2 ∷ row_at 3 ∷ row_at 4 ∷ row_at 5 ∷ row_at 6 ∷ []

full-reached : serve_all sign_ups [] ≡ full
unfolding serve_all serve hit check check_known limits record_event bucket_of is_live count text_eq
full-reached = refl

full-IsBounded : IsBounded full
full-IsBounded =
    subst IsBounded full-reached (serve_all-IsBounded sign_ups [] sign_ups-IsTimely nil-IsBounded)

full-past : All (λ (e : ThrottleEvent). e.occurred_at ≤ 6) full
full-past = omega arith

full-denied : check "register_ip" (codes "10.0.0.7") (at_time 6) full ≡ some (false, 3599)
unfolding check check_known limits bucket_of is_live count wait_for oldest filter text_eq
full-denied = refl

check-after-wait_example :
    check "register_ip" (codes "10.0.0.7") (at_time 3700000000) full ≡ some (true, 0)
check-after-wait_example =
    check-after-wait "register_ip" (codes "10.0.0.7") (at_time 6) (at_time 3700000000) full 5 3600
      3599 (unfold limits in refl) full-IsBounded full-past full-denied (omega arith)
