-- ===== src/Notices.antt =====
-- Delivery and inbox of notifications: challenge_ingestion/notifications.py over the table of
-- db/notification_models.py, whose channel is in_app in every row.
pub mod Privacy
pub mod Delivery
use itp2_group6_the_pond.Prelude.{
  ℕ, suc, Bool, true, false, ◌&&◌, ◌||◌, not, Option, none, some, List, [], ◌∷◌, map, Text, ◌==◌,
  ℕ_eq, leb, ltb, count, filter, find?, update_first, take, if◌then◌else◌,
}
use itp2_group6_the_pond.Accounts.{User, Users}

pub data DeliveryStatus : Type 0 where
  pending delivering sent failed : DeliveryStatus

-- A row of the outbox; of its error, whether it is set.
pub record Notification : Type 0 where
  pub notification_id : ℕ
  pub submission_id : ℕ
  pub recipient_user_id : ℕ
  pub event_type : Text
  pub message : Text
  pub status : DeliveryStatus
  pub attempt_count : ℕ
  pub available_at : ℕ
  pub lease_token : Option Text
  pub lease_expires_at : Option ℕ
  pub sent_at : Option ℕ
  pub read_at : Option ℕ
  pub has_error : Bool

abbrev pub Outbox : Type 0
Outbox = List Notification

-- What a reader gets.
pub record InboxItem : Type 0 where
  pub notification_id : ℕ
  pub submission_id : ℕ
  pub event_type : Text
  pub message : Text
  pub sent_at : Option ℕ
  pub read_at : Option ℕ

-- _positive, of a number: its bound is none or some.
unfoldable pub is_positive : Option ℕ → ℕ → Bool
is_positive none value = leb 1 value
is_positive (some maximum) value = leb 1 value && leb value maximum

unfoldable pub is_sent : DeliveryStatus → Bool
is_sent sent = true
is_sent pending = false
is_sent delivering = false
is_sent failed = false

abbrev pub is_expired : ℕ → Option ℕ → Bool
is_expired now none = false
is_expired now (some t) = leb t now

abbrev pub is_due_in : ℕ → Notification → DeliveryStatus → Bool
is_due_in now row pending = leb row.available_at now
is_due_in now row delivering = is_expired now row.lease_expires_at
is_due_in now row sent = false
is_due_in now row failed = false

-- The WHERE of deliver_pending.
unfoldable pub is_due : ℕ → Notification → Bool
is_due now row = is_due_in now row row.status

-- ORDER BY available_at, notification_id
unfoldable pub is_before : Notification → Notification → Bool
is_before a b =
    ltb a.available_at b.available_at
    || (a.available_at == b.available_at && ltb a.notification_id b.notification_id)

unfoldable pub insert_due : Notification → Outbox → Outbox
insert_due row [] = row ∷ []
insert_due row (r ∷ rows) =
    let rest = insert_due row rows in if is_before r row then r ∷ rest else row ∷ r ∷ rows

unfoldable pub by_availability : Outbox → Outbox
by_availability [] = []
by_availability (r ∷ rows) = insert_due r (by_availability rows)

-- The batch of one delivery.
unfoldable pub batch : ℕ → ℕ → Outbox → Outbox
batch now limit outbox = take limit (by_availability (filter (is_due now) outbox))

abbrev pub has_notification : ℕ → Notification → Bool
has_notification id row = row.notification_id == id

-- recipient is not None and recipient.is_active
unfoldable pub is_reachable : Users → ℕ → Bool
is_reachable users id = elim (find? (λ (u : User). u.user_id == id) users) [
  | none ↦ false
  | some u ↦ u.is_active
]

abbrev pub unleased : Notification → Notification
unleased row = record row { lease_token = none; lease_expires_at = none }

-- A row after the loop of deliver_pending has seen it.
unfoldable pub delivered : (max_attempts : ℕ) → Users → (now : ℕ) → Notification → Notification
delivered max_attempts users now row =
    if leb max_attempts row.attempt_count
    then unleased (record row { status = failed; has_error = true })
    else if not (is_reachable users row.recipient_user_id)
    then unleased
        (record row { attempt_count = suc row.attempt_count; status = failed; has_error = true })
    else unleased (record row {
      attempt_count = suc row.attempt_count;
      status = sent;
      sent_at = some now;
      read_at = none;
      has_error = false;
    })

-- The loop over the batch: the keys of the rows differ.
unfoldable pub deliver_all : (Notification → Notification) → Outbox → Outbox → Outbox
deliver_all f [] outbox = outbox
deliver_all f (row ∷ rows) outbox =
    deliver_all f rows (update_first (has_notification row.notification_id) f outbox)

-- DeliveryResult
pub record DeliveryResult : Type 0 where
  pub sent_count : ℕ
  pub failed_count : ℕ

unfoldable pub result_of : (Notification → Notification) → Outbox → DeliveryResult
result_of f rows = record {
  sent_count = count (λ row. is_sent (f row).status) rows;
  failed_count = count (λ row. not (is_sent (f row).status)) rows;
}

-- deliver_pending: `none` is ValueError.
unfoldable pub deliver_pending :
    (max_attempts limit : ℕ) → Users → (now : ℕ) → Outbox → Option (DeliveryResult × Outbox)
deliver_pending max_attempts limit users now outbox =
    let rows = batch now limit outbox in
    let f = delivered max_attempts users now in
    if is_positive (some 1000) limit
    then some (result_of f rows, deliver_all f rows outbox)
    else none

-- _actor: whether it passes.
unfoldable pub may_read : Users → ℕ → Bool
may_read users actor = is_positive none actor && is_reachable users actor

-- The rows of the actor that are visible.
unfoldable pub is_visible : ℕ → Notification → Bool
is_visible actor row = row.recipient_user_id == actor && is_sent row.status

abbrev pub is_unread : Notification → Bool
is_unread row = elim row.read_at [ none ↦ true | some t ↦ false ]

abbrev pub is_below : Option ℕ → Notification → Bool
is_below none row = true
is_below (some id) row = ltb row.notification_id id

-- ORDER BY notification_id DESC
unfoldable pub insert_newest : Notification → Outbox → Outbox
insert_newest row [] = row ∷ []
insert_newest row (r ∷ rows) =
    let rest = insert_newest row rows in
    if ltb row.notification_id r.notification_id then r ∷ rest else row ∷ r ∷ rows

unfoldable pub newest_first : Outbox → Outbox
newest_first [] = []
newest_first (r ∷ rows) = insert_newest r (newest_first rows)

abbrev pub inbox_item_of : Notification → InboxItem
inbox_item_of row = record {
  notification_id = row.notification_id;
  submission_id = row.submission_id;
  event_type = row.event_type;
  message = row.message;
  sent_at = row.sent_at;
  read_at = row.read_at;
}

-- The WHERE of inbox.
unfoldable pub is_listed :
    (actor : ℕ) → (before_id : Option ℕ) → (unread_only : Bool) → Notification → Bool
is_listed actor before_id unread_only row =
    is_visible actor row && (is_below before_id row && (not unread_only || is_unread row))

abbrev pub is_allowed_before : Option ℕ → Bool
is_allowed_before none = true
is_allowed_before (some id) = is_positive none id

-- inbox: `none` is ValueError or PermissionError.
unfoldable pub inbox :
    Users
    → (actor limit : ℕ) → (before_id : Option ℕ) → (unread_only : Bool) → Outbox
    → Option (List InboxItem)
inbox users actor limit before_id unread_only outbox =
    if is_positive (some 100) limit && (is_allowed_before before_id && may_read users actor)
    then some (
        map inbox_item_of
          (take limit (newest_first (filter (is_listed actor before_id unread_only) outbox))))
    else none

unfoldable pub unread_count : Users → ℕ → Outbox → Option ℕ
unread_count users actor outbox =
    if may_read users actor
    then some (count (λ row. is_visible actor row && is_unread row) outbox)
    else none

-- The row that mark_read finds.
unfoldable pub is_own : (id actor : ℕ) → Notification → Bool
is_own id actor row = has_notification id row && is_visible actor row

abbrev pub read_row : ℕ → Notification → Notification
read_row now row = record row { read_at = elim row.read_at [ none ↦ some now | some t ↦ some t ] }

-- mark_read: whether there is such a row, with the table afterwards; `none` is an exception.
unfoldable pub mark_read : Users → (id actor now : ℕ) → Outbox → Option (Bool × Outbox)
mark_read users id actor now outbox =
    if is_positive none id && may_read users actor
    then some (elim (find? (is_own id actor) outbox) [
      | none ↦ (false, outbox)
      | some row ↦ (true, update_first (is_own id actor) (read_row now) outbox)
    ])
    else none
