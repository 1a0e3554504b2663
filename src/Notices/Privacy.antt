-- ===== src/Notices/Privacy.antt =====
-- Whose notifications a reader of notifications.py sees and marks.
use mathlib.Core.Path.{subst}
use itp2_group6_the_pond.Prelude.{
  ℕ, ◌≡◌, refl, sym, inl, inr, ap, ◌∙◌, Bool, true, false, ◌&&◌, ◌||◌, not, Option, none, some,
  List, [], ◌∷◌, ◌==◌, ℕ_eq, count, filter, find?, update_first, Bool-cases, Option-cases, arith,
  map, take, if◌then◌else◌, some-injective, find?-sound, find?-update_first,
}
use itp2_group6_the_pond.Accounts.{Users}
use itp2_group6_the_pond.Notices.{
  Notification, Outbox, is_positive, may_read, is_visible, is_unread, is_below, is_listed,
  is_allowed_before, inbox, unread_count, is_own, read_row, mark_read, newest_first, inbox_item_of,
}

filter-and :
    {A : Type 0} (p q : A → Bool) (xs : List A)
    → filter (λ x. p x && q x) xs ≡ filter q (filter p xs)
unfolding filter
filter-and p q [] = refl
filter-and p q (x ∷ xs) = elim (Bool-cases (p x)) [
  | inr fails ↦ rw fails (filter-and p q xs)
  | inl passes ↦ elim (Bool-cases (q x)) [
    | inl both ↦ rw (passes, both) (ap (λ rest. x ∷ rest) (filter-and p q xs))
    | inr one ↦ rw (passes, one) (filter-and p q xs)
  ]
]

count-and :
    {A : Type 0} (p q : A → Bool) (xs : List A) → count (λ x. p x && q x) xs ≡ count q (filter p xs)
unfolding filter count
count-and p q [] = refl
count-and p q (x ∷ xs) = ground (arith, count-and p q xs)

-- What an actor reads is decided by the rows that are visible to the actor.
inbox-is_visible :
    (users : Users) (actor limit : ℕ) (before_id : Option ℕ) (unread_only : Bool)
    (outbox other : Outbox)
    → filter (is_visible actor) outbox ≡ filter (is_visible actor) other
    → (inbox users actor limit before_id unread_only outbox
        ≡ inbox users actor limit before_id unread_only other)
      × (unread_count users actor outbox ≡ unread_count users actor other)
unfolding inbox unread_count is_listed
inbox-is_visible users actor limit before_id unread_only outbox other same =
    let rest : Notification → Bool =
      λ row. is_below before_id row && (not unread_only || is_unread row) in
    let listed =
      filter-and (is_visible actor) rest outbox
      ∙ (ap (filter rest) same ∙ sym (filter-and (is_visible actor) rest other)) in
    let counted : count (λ row. is_visible actor row && is_unread row) outbox
        ≡ count (λ row. is_visible actor row && is_unread row) other =
      count-and (is_visible actor) is_unread outbox
      ∙ (ap (count is_unread) same ∙ sym (count-and (is_visible actor) is_unread other)) in
    (
      ap
          (λ (rows : Outbox).
            if is_positive (some 100) limit && (is_allowed_before before_id && may_read users actor)
            then some (map inbox_item_of (take limit (newest_first rows)))
            else none)
          listed,
      ap (λ n. if may_read users actor then some n else none) counted,
    )

-- Marking a row of another actor leaves the visible rows.
marked_other :
    (actor reader id now : ℕ) (rows : Outbox)
    → (reader == actor) ≡ false
    → filter (is_visible reader) (update_first (is_own id actor) (read_row now) rows)
      ≡ filter (is_visible reader) rows
unfolding filter update_first is_own is_visible
marked_other actor reader id now [] apart = refl
marked_other actor reader id now (row ∷ rows) apart = elim (Bool-cases (is_own id actor row)) [
  | inl here ↦ let hidden : is_visible reader row ≡ false = ground arith in rw (here, hidden) refl
  | inr there ↦ elim (Bool-cases (is_visible reader row)) [
    | inl shown ↦
        rw (there, shown) (ap (λ rest. row ∷ rest) (marked_other actor reader id now rows apart))
    | inr hidden ↦ rw (there, hidden) (marked_other actor reader id now rows apart)
  ]
]

-- What a successful mark_read found: the actor's row, or none.
abbrev pub marked : (id actor now : ℕ) → Outbox → Option Notification → Bool × Outbox
marked id actor now outbox none = (false, outbox)
marked id actor now outbox (some row) = (true, update_first (is_own id actor) (read_row now) outbox)

mark_read-marked :
    (users : Users) (id actor now : ℕ) (outbox : Outbox) (answer : Bool) (after : Outbox)
    → mark_read users id actor now outbox ≡ some (answer, after)
    → ((is_positive none id && may_read users actor) ≡ true)
      × (marked id actor now outbox (find? (is_own id actor) outbox) ≡ (answer, after))
unfolding mark_read
mark_read-marked users id actor now outbox answer after h =
    elim (Bool-cases (is_positive none id && may_read users actor)) [
      | inr refused ↦ let bad = rw (mark_read, refused) at h in cc
      | inl passed ↦ elim (Option-cases (find? (is_own id actor) outbox)) [
        | inl absent ↦
            (passed, rw (marked, absent) (some-injective (rw (mark_read, passed, absent) at h)))
        | inr (row, found) ↦
            (passed, rw (marked, found) (some-injective (rw (mark_read, passed, found) at h)))
      ]
    ]

marked-other :
    (reader id actor now : ℕ) (outbox : Outbox) (found : Option Notification)
    → (reader == actor) ≡ false
    → filter (is_visible reader) (marked id actor now outbox found).1
      ≡ filter (is_visible reader) outbox
marked-other reader id actor now outbox none apart = refl
marked-other reader id actor now outbox (some row) apart =
    marked_other actor reader id now outbox apart

-- One actor's mark_read changes nothing that another one reads.
pub mark_read-inbox :
    (users : Users) (id actor now : ℕ) (outbox : Outbox) (answer : Bool) (after : Outbox)
    (reader limit : ℕ) (before_id : Option ℕ) (unread_only : Bool)
    → (reader == actor) ≡ false
    → mark_read users id actor now outbox ≡ some (answer, after)
    → (inbox users reader limit before_id unread_only after
        ≡ inbox users reader limit before_id unread_only outbox)
      × (unread_count users reader after ≡ unread_count users reader outbox)
mark_read-inbox users id actor now outbox answer after reader limit before_id unread_only apart h =
    inbox-is_visible users reader limit before_id unread_only after outbox (
      subst
        (λ (x : Bool × Outbox). filter (is_visible reader) x.1 ≡ filter (is_visible reader) outbox)
        (mark_read-marked users id actor now outbox answer after h).1
        (marked-other reader id actor now outbox (find? (is_own id actor) outbox) apart))

same_row :
    (now later : ℕ) (row : Notification) → read_row later (read_row now row) ≡ read_row now row
same_row now later row = elim (Option-cases row.read_at) [
  | inl unread ↦ rw unread refl
  | inr (t, known) ↦ rw known refl
]

still_own :
    (id actor now : ℕ) (row : Notification)
    → is_own id actor (read_row now row) ≡ is_own id actor row
unfolding is_own is_visible
still_own id actor now row = refl

-- Marking a row again changes nothing.
marked_again :
    (id actor now later : ℕ) (rows : Outbox)
    → update_first
        (is_own id actor)
        (read_row later)
        (update_first (is_own id actor) (read_row now) rows)
      ≡ update_first (is_own id actor) (read_row now) rows
unfolding update_first
marked_again id actor now later [] = refl
marked_again id actor now later (row ∷ rows) = elim (Bool-cases (is_own id actor row)) [
  | inr there ↦ rw (there, there) (ap (λ rest. row ∷ rest) (marked_again id actor now later rows))
  | inl here ↦
      let own : is_own id actor (read_row now row) ≡ true = still_own id actor now row ∙ here in
      rw here (rw own (ap (λ r. r ∷ rows) (same_row now later row)))
]

marked_twice :
    (id actor now later : ℕ) (rows : Outbox) (found : Option Notification)
    → find? (is_own id actor) rows ≡ found
    → marked id actor later
        (marked id actor now rows found).1
        (find? (is_own id actor) (marked id actor now rows found).1)
      ≡ marked id actor now rows found
marked_twice id actor now later rows none absent = rw absent refl
marked_twice id actor now later rows (some row) found =
    rw
      (find?-update_first (is_own id actor) (read_row now) rows row found
        (still_own id actor now row ∙ find?-sound (is_own id actor) rows row found))
      (ap (λ after. (true, after)) (marked_again id actor now later rows))

marked-mark_read :
    (users : Users) (id actor now : ℕ) (outbox : Outbox)
    → (is_positive none id && may_read users actor) ≡ true
    → mark_read users id actor now outbox
      ≡ some (marked id actor now outbox (find? (is_own id actor) outbox))
unfolding mark_read
marked-mark_read users id actor now outbox passed =
    elim (Option-cases (find? (is_own id actor) outbox)) [
      | inl absent ↦ rw (mark_read, passed, absent) refl
      | inr (row, found) ↦ rw (mark_read, passed, found) refl
    ]

-- A mark_read that returns can be repeated at any time: it answers the same and changes nothing
-- more, so that the time of the first reading stays.
pub mark_read-mark_read :
    (users : Users) (id actor now later : ℕ) (outbox : Outbox) (answer : Bool) (after : Outbox)
    → mark_read users id actor now outbox ≡ some (answer, after)
    → mark_read users id actor later after ≡ some (answer, after)
mark_read-mark_read users id actor now later outbox answer after h =
    let (passed, first) = mark_read-marked users id actor now outbox answer after h in
    subst (λ (x : Bool × Outbox). mark_read users id actor later x.1 ≡ some x) first
      (marked-mark_read users id actor later _ passed
        ∙ ap some (marked_twice id actor now later outbox _ refl))
