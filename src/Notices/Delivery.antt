-- ===== src/Notices/Delivery.antt =====
-- What a delivery of notifications.py does to the rows of the outbox.
use mathlib.Core.Path.{subst}
use itp2_group6_the_pond.Prelude.{
  ℕ, zero, suc, ◌≡◌, ◌≤◌, ◌⊎◌, refl, sym, inl, inr, ap, ◌∙◌, Bool, true, false, some, List, [], ◌∷◌,
  ◌==◌, ℕ_eq, count, filter, find?, find?-count, update_first, Bool-cases, find?-update_first_other,
  All-map, arith, take, some-injective, All,
}
use itp2_group6_the_pond.Accounts.{Users}
use itp2_group6_the_pond.Notices.{
  Notification, Outbox, is_positive, is_due, is_before, insert_due, by_availability, batch,
  has_notification, delivered, deliver_all, deliver_pending, result_of, DeliveryResult,
}

-- The attempts are within the limit.
abbrev pub IsBounded : ℕ → Notification → Type 0
IsBounded max_attempts row = row.attempt_count ≤ max_attempts

delivered-IsBounded :
    (max_attempts : ℕ) (users : Users) (now : ℕ) (row : Notification)
    → IsBounded max_attempts row
    → IsBounded max_attempts (delivered max_attempts users now row)
unfolding delivered
delivered-IsBounded max_attempts users now row h = ground arith

module _ {A : Type 0} (P : A → Type 0) where
  All-update_first-All :
      (p : A → Bool) (f : A → A) (xs : List A)
      → ((x : A) → P x → P (f x))
      → All P xs
      → All P (update_first p f xs)
  unfolding update_first
  All-update_first-All p f [] keeps h = tt
  All-update_first-All p f (x ∷ xs) keeps h = elim (Bool-cases (p x)) [
    | inl here ↦ rw here (keeps x h.0, h.1)
    | inr there ↦ rw there (h.0, All-update_first-All p f xs keeps h.1)
  ]

  All-take : (n : ℕ) (xs : List A) → All P xs → All P (take n xs)
  All-take zero xs h = tt
  All-take (suc n) [] h = tt
  All-take (suc n) (x ∷ xs) h = (h.0, All-take n xs h.1)

deliver_all-IsBounded :
    (max_attempts : ℕ) (f : Notification → Notification) (rows outbox : Outbox)
    → ((row : Notification) → IsBounded max_attempts row → IsBounded max_attempts (f row))
    → All (IsBounded max_attempts) outbox
    → All (IsBounded max_attempts) (deliver_all f rows outbox)
unfolding deliver_all
deliver_all-IsBounded max_attempts f [] outbox keeps h = h
deliver_all-IsBounded max_attempts f (row ∷ rows) outbox keeps h =
    deliver_all-IsBounded max_attempts f rows _ keeps (
      All-update_first-All (IsBounded max_attempts) (has_notification row.notification_id) f outbox
        keeps h)

All-insert_due :
    (P : Notification → Type 0) (row : Notification) (rows : Outbox)
    → P row
    → All P rows
    → All P (insert_due row rows)
unfolding insert_due
All-insert_due P row [] here h = (here, h)
All-insert_due P row (r ∷ rows) here h = elim (Bool-cases (is_before r row)) [
  | inl first ↦ rw first (h.0, All-insert_due P row rows here h.1)
  | inr last ↦ rw last (here, h)
]

All-by_availability :
    (P : Notification → Type 0) (rows : Outbox) → All P rows → All P (by_availability rows)
unfolding by_availability
All-by_availability P [] h = tt
All-by_availability P (r ∷ rows) h = All-insert_due P r _ h.0 (All-by_availability P rows h.1)

-- No two rows have the same key.
unfoldable pub IsKeyed : Outbox → Type 0
IsKeyed outbox = (id : ℕ) → count (has_notification id) outbox ≤ 1

-- The rows of a batch are due, and are the rows of their keys.
DueRow : ℕ → Outbox → Notification → Type 0
DueRow now outbox row =
    (is_due now row ≡ true) × (find? (has_notification row.notification_id) outbox ≡ some row)

behind :
    (row other : Notification) (rows : Outbox)
    → IsKeyed (row ∷ rows)
    → find? (has_notification other.notification_id) rows ≡ some other
    → find? (has_notification other.notification_id) (row ∷ rows) ≡ some other
unfolding find? count IsKeyed
behind row other rows keyed h =
    let most = keyed other.notification_id in
    let least = find?-count (has_notification other.notification_id) rows other h in ground arith

IsKeyed-tail : (row : Notification) (rows : Outbox) → IsKeyed (row ∷ rows) → IsKeyed rows
unfolding count IsKeyed
IsKeyed-tail row rows keyed id = let k = keyed id in ground arith

-- Every row is the one that its key finds.
found_by_key :
    (outbox : Outbox)
    → IsKeyed outbox
    → All (λ row. find? (has_notification row.notification_id) outbox ≡ some row) outbox
unfolding find?
found_by_key [] keyed = tt
found_by_key (row ∷ rows) keyed = (
  ground arith,
  All-map (λ other. find? (has_notification other.notification_id) rows ≡ some other)
      (λ other. find? (has_notification other.notification_id) (row ∷ rows) ≡ some other)
      (λ other h. behind row other rows keyed h) rows
      (found_by_key rows (IsKeyed-tail row rows keyed)),
)

passing :
    (P : Notification → Type 0) (p : Notification → Bool) (rows : Outbox)
    → All P rows
    → All (λ row. (p row ≡ true) × P row) (filter p rows)
unfolding filter
passing P p [] h = tt
passing P p (row ∷ rows) h = elim (Bool-cases (p row)) [
  | inl here ↦ rw here ((here, h.0), passing P p rows h.1)
  | inr there ↦ rw there (passing P p rows h.1)
]

batch-due :
    (now limit : ℕ) (outbox : Outbox)
    → IsKeyed outbox
    → All (DueRow now outbox) (batch now limit outbox)
unfolding batch DueRow
batch-due now limit outbox keyed = All-take (DueRow now outbox) limit _ (
    All-by_availability (DueRow now outbox) (filter (is_due now) outbox) (
      passing (λ row. find? (has_notification row.notification_id) outbox ≡ some row) (is_due now)
        outbox (found_by_key outbox keyed)))

-- Changes of rows with other keys.
deliver_all-other :
    (f : Notification → Notification) (id : ℕ) (rows outbox : Outbox)
    → ((row : Notification) → (f row).notification_id ≡ row.notification_id)
    → All (λ row. (row.notification_id == id) ≡ false) rows
    → find? (has_notification id) (deliver_all f rows outbox) ≡ find? (has_notification id) outbox
unfolding deliver_all
deliver_all-other f id [] outbox keeps apart = refl
deliver_all-other f id (row ∷ rows) outbox keeps (here, rest) =
    deliver_all-other f id rows _ keeps rest
    ∙ find?-update_first_other (has_notification id) (has_notification row.notification_id) f
        (λ r e. let same = keeps r in (ground arith, ground arith)) outbox

delivered-key :
    (max_attempts : ℕ) (users : Users) (now : ℕ) (row : Notification)
    → (delivered max_attempts users now row).notification_id ≡ row.notification_id
unfolding delivered
delivered-key max_attempts users now row = ground arith

apart_from :
    (now : ℕ) (outbox : Outbox) (row : Notification) (id : ℕ)
    → find? (has_notification id) outbox ≡ some row
    → is_due now row ≡ false
    → (other : Notification) → DueRow now outbox other
    → (other.notification_id == id) ≡ false
unfolding DueRow
apart_from now outbox row id found idle other (due, itself) =
    elim (Bool-cases (other.notification_id == id)) [
      | inr apart ↦ apart
      | inl same ↦
          let key : other.notification_id ≡ id = ground arith in
          let found_other : find? (has_notification id) outbox ≡ some other =
            subst (λ k. find? (has_notification k) outbox ≡ some other) key itself in
          let one : row ≡ other = some-injective (sym found ∙ found_other) in
          let bad : is_due now other ≡ false = subst (λ r. is_due now r ≡ false) one idle in cc
    ]

apart_rows :
    (now : ℕ) (outbox rows : Outbox) (row : Notification) (id : ℕ)
    → find? (has_notification id) outbox ≡ some row
    → is_due now row ≡ false
    → All (DueRow now outbox) rows
    → All (λ other. (other.notification_id == id) ≡ false) rows
apart_rows now outbox rows row id found idle due =
    All-map (DueRow now outbox) (λ other. (other.notification_id == id) ≡ false)
      (apart_from now outbox row id found idle) rows due

-- A row that is not due is the same afterwards.
stays :
    (max_attempts limit : ℕ) (users : Users) (now : ℕ) (outbox : Outbox)
    → IsKeyed outbox
    → (row : Notification) → find? (has_notification row.notification_id) outbox ≡ some row
    → (is_due now row ≡ true)
      ⊎ (find?
            (has_notification row.notification_id)
            (deliver_all (delivered max_attempts users now) (batch now limit outbox) outbox)
          ≡ some row)
stays max_attempts limit users now outbox keyed row found = elim (Bool-cases (is_due now row)) [
  | inl due ↦ inl due
  | inr idle ↦ inr (
      deliver_all-other (delivered max_attempts users now) row.notification_id
        (batch now limit outbox) outbox (delivered-key max_attempts users now)
        (apart_rows now outbox (batch now limit outbox) row row.notification_id found idle
          (batch-due now limit outbox keyed))
      ∙ found)
]

-- If no two rows have the same key, then a delivery that returns keeps the attempts of every row
-- within the limit, if they were, and leaves every row that is not due as it was: so a notification
-- that was sent, or that failed, is never delivered again.
pub deliver_pending-IsBounded :
    (max_attempts limit : ℕ) (users : Users) (now : ℕ) (outbox after : Outbox)
    (result : DeliveryResult)
    → IsKeyed outbox
    → All (IsBounded max_attempts) outbox
    → deliver_pending max_attempts limit users now outbox ≡ some (result, after)
    → All (IsBounded max_attempts) after
      × All
          (λ row.
            (is_due now row ≡ true)
            ⊎ (find? (has_notification row.notification_id) after ≡ some row))
          outbox
unfolding deliver_pending
deliver_pending-IsBounded max_attempts limit users now outbox after result keyed bounded h =
    elim (Bool-cases (is_positive (some 1000) limit)) [
      | inr refused ↦ let bad = rw (deliver_pending, refused) at h in cc
      | inl passed ↦
          let f = delivered max_attempts users now in
          let rows = batch now limit outbox in
          let both : (result_of f rows, deliver_all f rows outbox) ≡ (result, after) =
            some-injective (rw (deliver_pending, passed) at h) in
          let made : deliver_all f rows outbox ≡ after =
            ap (λ (x : DeliveryResult × Outbox). x.1) both in
          subst
            (λ out.
              All (IsBounded max_attempts) out
              × All
                  (λ row.
                    (is_due now row ≡ true)
                    ⊎ (find? (has_notification row.notification_id) out ≡ some row))
                  outbox)
            made
            (
              deliver_all-IsBounded max_attempts f rows outbox
                  (delivered-IsBounded max_attempts users now) bounded,
              All-map (λ row. find? (has_notification row.notification_id) outbox ≡ some row) _
                  (stays max_attempts limit users now outbox keyed) outbox
                  (found_by_key outbox keyed),
            )
    ]
