-- ===== src/Attempts/Steps.antt =====
-- The sessions of themes.py as a step relation, and the attempts that are in progress in every world
-- that it reaches.
use itp2_group6_the_pond.Prelude.{
  ℕ, ◌≡◌, refl, sym, Bool, false, Option, List, [], Text, count, Clock,
}
use mathlib.Core.Path.{subst}
use itp2_group6_the_pond.Audit.{AuditLog}
use itp2_group6_the_pond.Scoring.{Store}
use itp2_group6_the_pond.Sessions.{
  World, Env, SessionStatus, stop_docker, close_instance, is_live_status, close, close_session,
  reap_sessions, live_ids, launch, Play, flag,
}
use itp2_group6_the_pond.Attempts.View.{view, is_seat, stop_docker-Shows, Shows}
use itp2_group6_the_pond.Attempts.Single.{IsSingle, launch-IsSingle}
use itp2_group6_the_pond.Attempts.Routes.{close_kept, close_session_kept, reap_from_kept, flag_kept}
use itp2_group6_the_pond.Attempts.Ends.{close_instance-IsSingle}

-- One request or one run of the reaper. A launch gets a new key.
pub data Step : World → World → Type 0 where
  launches :
      (env : Env) (id user_id : ℕ) (username : Text) (challenge_id : ℕ) (w : World)
      → count (is_seat id) (view w) ≡ 0
      → Step w (launch env id user_id username challenge_id w).0
  closes :
      (env : Env) (user_id id : ℕ) (asked : Bool) (store : Store) (w : World)
      → Step w (close env user_id id asked store w).0
  is_closed_by_staff :
      (env : Env) (usernames : ℕ → Option Text) (id : ℕ) (w : World)
      → Step w (close_session env usernames id w).0
  flags :
      (sha256 : Text → Text) (env : Env) (clock : Clock) (user_id : ℕ) (username : Text) (id : ℕ)
      (raw : Text) (p : Play)
      → Step p.world (flag sha256 env clock user_id username id raw p).0.world
  is_reaped : (env : Env) (ttl : ℕ) (w : World) → Step w (reap_sessions env ttl w).0.0

-- Requests one after the other.
pub data Steps : World → World → Type 0 where
  stop_here : (w : World) → Steps w w
  step : (w w' w'' : World) → Step w w' → Steps w' w'' → Steps w w''

-- What each operation keeps, every step does.
pub Step_kept :
    (P : World → Type 0)
    → ((env : Env) (id user_id : ℕ) (username : Text) (challenge_id : ℕ) (w : World)
        → count (is_seat id) (view w) ≡ 0
        → P w
        → P (launch env id user_id username challenge_id w).0)
    → ((env : Env) (id : ℕ) (status : SessionStatus) (w : World)
        → is_live_status status ≡ false
        → P w
        → P (close_instance env id status w).0)
    → ((env : Env) (id : ℕ) (w : World) → P w → P (stop_docker env id w))
    → ((log : List AuditLog) (w : World) → P w → P (record w { log = log }))
    → (w w' : World) → Step w w'
    → P w
    → P w'
unfolding reap_sessions
Step_kept P opens ends stops logs w _ (launches env id user_id username challenge_id _ fresh) h =
    opens env id user_id username challenge_id w fresh h
Step_kept P opens ends stops logs w _ (closes env user_id id asked store _) h =
    close_kept env P (ends env) (stops env) logs user_id id asked store w h
Step_kept P opens ends stops logs w _ (is_closed_by_staff env usernames id _) h =
    close_session_kept env P (ends env) (stops env) logs usernames id w h
Step_kept P opens ends stops logs _ _ (flags sha256 env clock user_id username id raw p) h =
    flag_kept env P (ends env) (stops env) logs sha256 clock user_id username id raw p h
Step_kept P opens ends stops logs w _ (is_reaped env ttl _) h =
    reap_from_kept env P (ends env) (stops env) logs ttl (live_ids w) (w, []) h

pub Steps_kept :
    (P : World → Type 0)
    → ((w w' : World) → Step w w' → P w → P w')
    → (w w' : World) → Steps w w'
    → P w
    → P w'
Steps_kept P keeps w _ (stop_here _) h = h
Steps_kept P keeps w w'' (step _ w' _ first rest) h =
    Steps_kept P keeps w' w'' rest (keeps w w' first h)

-- However requests and runs of the reaper follow each other, and whatever the hypervisor, the
-- adapter and the Docker service do in them, each user has one attempt in progress at most, if that
-- was so before.
pub Steps-IsSingle : (w w' : World) → Steps w w' → IsSingle (view w) → IsSingle (view w')
unfolding Shows
Steps-IsSingle =
    Steps_kept (λ w. IsSingle (view w))
      (Step_kept (λ w. IsSingle (view w)) launch-IsSingle close_instance-IsSingle
        (λ env id w h. subst IsSingle (sym (stop_docker-Shows env (view w) id w refl)) h)
        (λ log w h. h))
