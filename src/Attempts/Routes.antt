-- ===== src/Attempts/Routes.antt =====
-- What the routes of themes.py and admin.py that close sessions, and the reaper, keep, if _close does.
use itp2_group6_the_pond.Prelude.{
  ℕ, ◌≡◌, refl, inl, inr, Bool, true, false, Option, List, [], ◌∷◌, ◌==◌, ℕ_eq, find?, Bool-cases,
  ◌&&◌, ◌||◌, Text, Option-cases, Clock, take,
}
use itp2_group6_the_pond.Audit.{AuditLog}
use itp2_group6_the_pond.Strings.{strip, is_blank}
use itp2_group6_the_pond.Throttle.{hit as hit_limit}
use itp2_group6_the_pond.Scoring.{Store, Grade, hit, miss, repeat, submit_flag}
use itp2_group6_the_pond.Scoring.Progress.{Progress, challenge_progress}
use itp2_group6_the_pond.Sessions.{
  SessionStatus, complete, abandoned, Instance, World, Env, has_instance, is_live_status,
  owned_instance, stop_docker, close_instance, answer_of, close_owned, close, log_staff,
  close_session, outcome_of, is_provisioning, is_running_session, Reason, reason_of, reap_one,
  reap_from, Play, flag_closed, graded, grade_flag, throttle_key, log_throttled, flag_running, flag,
}

outcome_of-over :
    (asked : Bool) (progress : Progress) → is_live_status (outcome_of asked progress) ≡ false
unfolding outcome_of is_live_status
outcome_of-over asked progress =
    elim (Bool-cases (asked && (progress.is_complete || progress.flags_total == 0))) [
      | inl done ↦ rw done refl
      | inr given_up ↦ rw given_up refl
    ]

module _ (env : Env) (P : World → Type 0)
    (closed : (id : ℕ) (status : SessionStatus) (w : World)
      → is_live_status status ≡ false
      → P w
      → P (close_instance env id status w).0)
    (stopped : (id : ℕ) (w : World) → P w → P (stop_docker env id w))
    (logged : (log : List AuditLog) (w : World) → P w → P (record w { log = log })) where
  answer_of_kept : (status : SessionStatus) (x : World × Bool) → P x.0 → P (answer_of status x).0
  answer_of_kept status (w, false) h = h
  answer_of_kept status (w, true) h = h

  log_staff_kept :
      (user_id : ℕ) (username : Text) (x : World × Bool)
      → P x.0
      → P (log_staff user_id username x).0
  log_staff_kept user_id username (w, false) h = h
  log_staff_kept user_id username (w, true) h = logged _ w h

  close_owned_kept :
      (asked : Bool) (store : Store) (i : Instance) (w : World)
      → P w
      → P (close_owned env asked store i w).0
  unfolding close_owned
  close_owned_kept asked store i w h = elim (Bool-cases (is_provisioning i.status)) [
    | inl starting ↦ rw (close_owned, starting) h
    | inr begun ↦ elim (Bool-cases (is_running_session i.status)) [
      | inr over ↦ rw (close_owned, begun, over) (stopped i.instance_id w h)
      | inl running ↦
          let status = outcome_of asked (challenge_progress i.user_id i.challenge_id store) in
          rw (close_owned, begun, running)
            (answer_of_kept status _ (closed i.instance_id status w (outcome_of-over asked _) h))
    ]
  ]

  pub close_kept :
      (user_id id : ℕ) (asked : Bool) (store : Store) (w : World)
      → P w
      → P (close env user_id id asked store w).0
  unfolding close
  close_kept user_id id asked store w h = elim (Option-cases (owned_instance user_id id w)) [
    | inl absent ↦ rw (close, absent) h
    | inr (i, found) ↦ rw (close, found) (close_owned_kept asked store i w h)
  ]

  pub close_session_kept :
      (usernames : ℕ → Option Text) (id : ℕ) (w : World)
      → P w
      → P (close_session env usernames id w).0
  unfolding close_session is_live_status
  close_session_kept usernames id w h = elim (Option-cases (find? (has_instance id) w.instances)) [
    | inl absent ↦ rw (close_session, absent) h
    | inr (i, found) ↦ elim (Bool-cases (is_running_session i.status)) [
      | inr over ↦ rw (close_session, found, over) h
      | inl running ↦ elim (Option-cases (usernames i.user_id)) [
        | inl unnamed ↦ rw (close_session, found, running, unnamed) h
        | inr (username, token_named) ↦
            rw (close_session, found, running, token_named)
              (log_staff_kept i.user_id username _ (closed id abandoned w refl h))
      ]
    ]
  ]

  reap_one_kept :
      (ttl id : ℕ) (state : World × List (ℕ × Reason))
      → P state.0
      → P (reap_one env ttl id state).0.0
  unfolding reap_one is_live_status
  reap_one_kept ttl id (w, done) h = elim (Option-cases (find? (has_instance id) w.instances)) [
    | inl absent ↦ rw (reap_one, absent) h
    | inr (i, found) ↦ elim (Option-cases (reason_of env ttl i w)) [
      | inl healthy ↦ rw (reap_one, found, healthy) h
      | inr (reason, due) ↦
          let after = closed id abandoned w refl h in
          elim (Bool-cases (close_instance env id abandoned w).1) [
            | inl returned ↦ rw (reap_one, found, due, returned) after
            | inr raised ↦ rw (reap_one, found, due, raised) after
          ]
    ]
  ]

  pub reap_from_kept :
      (ttl : ℕ) (ids : List ℕ) (state : World × List (ℕ × Reason))
      → P state.0
      → P (reap_from env ttl ids state).0.0
  unfolding reap_from
  reap_from_kept ttl [] state h = h
  reap_from_kept ttl (id ∷ ids) state h =
      let after = reap_one_kept ttl id state h in
      elim (Bool-cases (reap_one env ttl id state).1) [
        | inl returned ↦ rw (reap_from, returned) (reap_from_kept ttl ids _ after)
        | inr raised ↦ rw (reap_from, raised) after
      ]

  flag_closed_kept : (p : Play) (x : World × Bool) → P x.0 → P (flag_closed p x).0.world
  flag_closed_kept p (w, false) h = h
  flag_closed_kept p (w, true) h = h

  graded_kept :
      (i : Instance) (p : Play) (grade : Grade) → P p.world → P (graded env i p grade).0.world
  unfolding is_live_status
  graded_kept i p miss h = h
  graded_kept i p repeat h = h
  graded_kept i p hit h =
      elim (Bool-cases (challenge_progress i.user_id i.challenge_id p.store).is_complete) [
        | inl complete_now ↦
            rw (graded, complete_now)
              (flag_closed_kept p _ (closed i.instance_id complete p.world refl h))
        | inr more ↦ rw (graded, more) h
      ]

  grade_flag_kept :
      (sha256 : Text → Text) (i : Instance) (submitted : Text) (p : Play)
      → P p.world
      → P (grade_flag sha256 env i submitted p).0.world
  unfolding grade_flag
  grade_flag_kept sha256 i submitted p h =
      elim (Option-cases
        (submit_flag sha256 i.user_id i.challenge_id i.instance_id submitted env.now p.store)) [
          | inl many ↦ rw (grade_flag, many) h
          | inr ((grade, points, label, store), found) ↦
              rw (grade_flag, found) (graded_kept i (record p { store = store }) grade h)
        ]

  flag_running_kept :
      (sha256 : Text → Text) (clock : Clock) (username raw : Text) (i : Instance) (p : Play)
      → P p.world
      → P (flag_running sha256 env clock username raw i p).0.world
  unfolding flag_running log_throttled
  flag_running_kept sha256 clock username raw i p h =
      elim (Option-cases (hit_limit "flag_challenge" (throttle_key i) clock p.attempts)) [
        | inl broken ↦ rw (flag_running, broken) h
        | inr ((allowed, wait, attempts), answered) ↦ elim (Bool-cases allowed) [
          | inr refused ↦ rw (flag_running, answered, refused) (logged _ p.world h)
          | inl granted ↦ elim (Bool-cases (is_blank (take 200 (strip raw)))) [
            | inl nothing ↦ rw (flag_running, answered, granted, nothing) h
            | inr entered ↦
                rw (flag_running, answered, granted, entered)
                  (grade_flag_kept sha256 i (take 200 (strip raw))
                    (record p { attempts = attempts }) h)
          ]
        ]
      ]

  pub flag_kept :
      (sha256 : Text → Text) (clock : Clock) (user_id : ℕ) (username : Text) (id : ℕ) (raw : Text)
      (p : Play)
      → P p.world
      → P (flag sha256 env clock user_id username id raw p).0.world
  unfolding flag
  flag_kept sha256 clock user_id username id raw p h =
      elim (Option-cases (owned_instance user_id id p.world)) [
        | inl absent ↦ rw (flag, absent) h
        | inr (i, found) ↦ elim (Bool-cases (is_running_session i.status)) [
          | inl running ↦
              rw (flag, found, running) (flag_running_kept sha256 clock username raw i p h)
          | inr over ↦ rw (flag, found, over) h
        ]
      ]
