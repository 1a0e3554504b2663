-- ===== src/Examples/Staff.antt =====
-- Accounts, credentials and the staff console on a few concrete accounts.
use itp2_group6_the_pond.Prelude.{◌<◌, some, List, [], ◌∷◌, String_eq, Text_eq, arith, count, ℕ_eq}
use itp2_group6_the_pond.Accounts.{Row, row_from_user}
use itp2_group6_the_pond.Examples.Data.{ada, users, console, plain}
use itp2_group6_the_pond.Admin.{lock_request, role_request, handle, is_sysadmin}
use itp2_group6_the_pond.Admin.Outcome.{Outcome}
use itp2_group6_the_pond.Admin.Legit.{Legit}
use itp2_group6_the_pond.Admin.Safety.{
  Posted, serve_all, handle-Outcome, serve_all-has_admin, role_or_student,
}

abbrev ada_row : Row
ada_row = row_from_user ada

handle-Outcome_example :
    Outcome
      (Legit (role_or_student (some ada_row)) 2 users)
      2
      console
      (handle plain (lock_request (some 24) 7) (some ada_row) 2 console)
handle-Outcome_example = handle-Outcome plain (lock_request (some 24) 7) (some ada_row) 2 console

-- The administrator tries to step down, and then locks the student.
abbrev posts : List Posted
posts =
    record { request = role_request "student"; actor = some ada_row; target = 1 }
    ∷ record { request = lock_request (some 24) 7; actor = some ada_row; target = 2 }
    ∷ []

has_admin_at_first : 0 < count is_sysadmin users
unfolding count
has_admin_at_first = omega arith

serve_all-has_admin_example : 0 < count is_sysadmin (serve_all plain posts console).users
serve_all-has_admin_example = serve_all-has_admin plain posts console has_admin_at_first
