-- ===== src/Jobs/Notices.antt =====
-- The notifications of challenge_ingestion/worker.py.
use mathlib.Core.Path.{subst}
use itp2_group6_the_pond.Prelude.{
  ℕ, ◌≤◌, ◌≡◌, inl, inr, Bool, true, false, List, [], ◌∷◌, Text_eq, Bool_eq, bool_eq_iff,
  text_eq_iff, ℕ_eq, any, any-count, count, count-append, Bool-cases, arith,
}
use itp2_group6_the_pond.Ingestion.{
  Ingestion, SubmissionJob, ChallengeSubmission, SubmissionStatus, DeduplicationKey, validation_key,
  review_key, NotificationOutbox, key_eq,
}
use itp2_group6_the_pond.Reports.{Report}
use itp2_group6_the_pond.Worker.{Worker, notify, notification, retries, result}
use itp2_group6_the_pond.Jobs.Operations.{Op, run}
use itp2_group6_the_pond.Jobs.Frames.{run-frame}

-- No two notifications have the same key.
abbrev pub IsSingle : List NotificationOutbox → Type 0
IsSingle outbox = (k : DeduplicationKey) → count (λ m. key_eq m.deduplication_key k) outbox ≤ 1

key_eq_sound : (a b : DeduplicationKey) → key_eq a b ≡ true → a ≡ b
key_eq_sound (validation_key a b) (validation_key c d) h = ground arith
key_eq_sound (validation_key a b) (review_key c d e) h = cc
key_eq_sound (review_key a b c) (validation_key d e) h = cc
key_eq_sound (review_key a t x) (review_key c u y) h =
    let first : a ≡ c = ground arith in
    let second : t ≡ u = (text_eq_iff t u).0 (ground arith) in
    let third : x ≡ y = (bool_eq_iff x y).0 (ground arith) in cc

notify-IsSingle :
    (job : SubmissionJob) (s : ChallengeSubmission) (status : SubmissionStatus)
    (outbox : List NotificationOutbox)
    → IsSingle outbox
    → IsSingle (notify job s status outbox)
unfolding notify count
notify-IsSingle job s status outbox single k =
    let n = notification job s status in
    elim (Bool-cases (any (λ m. key_eq m.deduplication_key n.deduplication_key) outbox)) [
      | inl sent ↦ rw sent (single k)
      | inr new ↦
          let total = count-append (λ m. key_eq m.deduplication_key k) outbox (n ∷ []) in
          rw new (elim (Bool-cases (key_eq n.deduplication_key k)) [
            | inl same ↦
                let none_yet =
                  any-count (λ m. key_eq m.deduplication_key k) outbox
                    (subst (λ j. any (λ m. key_eq m.deduplication_key j) outbox ≡ false)
                      (key_eq_sound n.deduplication_key k same) new) in
                ground arith
            | inr other ↦ let old = single k in ground arith
          ])
    ]

result-IsSingle :
    (worker : Worker) (now : ℕ) (job : SubmissionJob) (s : ChallengeSubmission) (report : Report)
    (over : Bool) (db : Ingestion)
    → IsSingle db.outbox
    → IsSingle (result worker now job s report over db).outbox
unfolding result
result-IsSingle worker now job s report over db h = elim (Bool-cases (retries job report over)) [
  | inl again ↦ rw again h
  | inr no_more ↦ rw no_more (notify-IsSingle job s _ db.outbox h)
]

-- Any run keeps the keys of the notifications apart, so that a job notifies its uploader at most
-- once.
pub run-IsSingle :
    (ops : List Op) (db : Ingestion) → IsSingle db.outbox → IsSingle (run ops db).outbox
run-IsSingle ops db h =
    run-frame (λ (d : Ingestion). IsSingle d.outbox) (λ jobs d k. k) result-IsSingle ops db h
