-- ===== src/Ticket/Reserve/Release.antt =====
-- Giving seats back: by their holder, and by the clean-up job.
use lucky_draw.Common.{
  ℕ, ◌+◌, ◌<◌, ◌≡◌, refl, true, Bool, Option, none, some, List, [], ◌∷◌, arith, is_none, ◌=?◌,
  count_where, update_where, Pointwise, Rewrites, update_where-Rewrites, Option-cases, inl, inr,
}
use lucky_draw.Model.{Db, Ticket, TicketStatus, ok, is_reserved}
use lucky_draw.Ticket.Reserve.{
  release_mine, release_expired, is_mine_to_release, is_expired, vacate,
}

-- A held seat that is in no order, and whose time is over.
abbrev pub IsOver : ℕ → Ticket → Type 0
IsOver now t =
    (t.status ≡ TicketStatus.reserved)
    × (t.order_id ≡ none)
    × (until : ℕ) × (t.reserve_expires_at ≡ some until)
    × (until < now)

-- A seat of the event that the user holds, and that is in no order.
abbrev pub IsHeldUnordered : ℕ → ℕ → Ticket → Type 0
IsHeldUnordered kuji user t =
    (t.kuji_event_id ≡ kuji)
    × (t.status ≡ TicketStatus.reserved)
    × (t.reserved_by_user_id ≡ some user)
    × (t.order_id ≡ none)

-- The seat as anyone may take it.
abbrev pub freed : Ticket → Ticket
freed t = record {
  id = t.id;
  kuji_event_id = t.kuji_event_id;
  position = t.position;
  prize_tier_id = t.prize_tier_id;
  prize_item_id = t.prize_item_id;
  status = TicketStatus.available;
  reserved_by_user_id = none;
  reserved_at = none;
  reserve_expires_at = none;
  order_id = t.order_id;
}

abbrev pub is_reserved_seat : Ticket → Bool
is_reserved_seat t = is_reserved t.status

-- Every seat that is given back was reserved.
reserved_after :
    (p : Ticket → Bool)
    → ((t : Ticket) → p t ≡ true → is_reserved t.status ≡ true)
    → (xs : List Ticket)
    → count_where is_reserved_seat (update_where p vacate xs) + count_where p xs
      ≡ count_where is_reserved_seat xs
reserved_after p sound [] = omega arith
reserved_after p sound (x ∷ xs) = ground (arith, reserved_after p sound xs, sound x)

is_reserved-reserved : (s : TicketStatus) → is_reserved s ≡ true → s ≡ TicketStatus.reserved
is_reserved-reserved TicketStatus.available h = ground arith
is_reserved-reserved TicketStatus.reserved h = refl
is_reserved-reserved TicketStatus.sold h = ground arith

is_none-none : (o : Option ℕ) → is_none o ≡ true → o ≡ none
is_none-none none h = refl
is_none-none (some n) h = ground arith

=?-some : (n : ℕ) (o : Option ℕ) → (o =? n) ≡ true → o ≡ some n
=?-some n none h = ground arith
=?-some n (some m) h = ground arith

is_expired-IsOver : (now : ℕ) (t : Ticket) → is_expired now t ≡ true → IsOver now t
is_expired-IsOver now t h = elim (Option-cases t.reserve_expires_at) [
  | inl e ↦ absurd (ground arith)
  | inr (until, e) ↦ (
    is_reserved-reserved t.status (ground arith),
    is_none-none t.order_id (ground arith),
    until,
    e,
    ground arith,
  )
]

IsOver-is_expired : (now : ℕ) (t : Ticket) → IsOver now t → is_expired now t ≡ true
IsOver-is_expired now t (held, unbound, until, expires, past) = ground arith

is_mine_to_release-IsHeldUnordered :
    (kuji user : ℕ) (t : Ticket)
    → is_mine_to_release kuji user t ≡ true
    → IsHeldUnordered kuji user t
is_mine_to_release-IsHeldUnordered kuji user t h = (
  ground arith,
  is_reserved-reserved t.status (ground arith),
  =?-some user t.reserved_by_user_id (ground arith),
  is_none-none t.order_id (ground arith),
)

IsHeldUnordered-is_mine_to_release :
    (kuji user : ℕ) (t : Ticket)
    → IsHeldUnordered kuji user t
    → is_mine_to_release kuji user t ≡ true
IsHeldUnordered-is_mine_to_release kuji user t (of, held, by, unbound) = ground arith

-- The clean-up job always succeeds. It frees exactly the seats that are reserved, in no order and
-- past their time, leaves every other seat and every other table as it was, and reports how many
-- seats it gave back.
pub release_expired_lem :
    (now : ℕ) (db : Db)
    → (n : ℕ) × (after : List Ticket) × (release_expired now db
        ≡ ok (n, record db { tickets = after }))
      × Pointwise (Rewrites (IsOver now) freed) db.tickets after
      × (count_where is_reserved_seat after + n ≡ count_where is_reserved_seat db.tickets)
unfolding release_expired
release_expired_lem now db = (
  count_where (is_expired now) db.tickets,
  update_where (is_expired now) vacate db.tickets,
  refl,
  update_where-Rewrites (IsOver now) (is_expired now) freed vacate (λ t. refl)
      (is_expired-IsOver now) (IsOver-is_expired now) db.tickets,
  reserved_after (is_expired now) (λ t h. ground arith) db.tickets,
)

-- A user's release always succeeds. It frees exactly the seats of the event that this user holds and
-- that are in no order, leaves every other seat and every other table as it was, and reports how
-- many seats it gave back.
pub release_mine_lem :
    (kuji user : ℕ) (db : Db)
    → (n : ℕ) × (after : List Ticket) × (release_mine kuji user db
        ≡ ok (n, record db { tickets = after }))
      × Pointwise (Rewrites (IsHeldUnordered kuji user) freed) db.tickets after
      × (count_where is_reserved_seat after + n ≡ count_where is_reserved_seat db.tickets)
unfolding release_mine
release_mine_lem kuji user db = (
  count_where (is_mine_to_release kuji user) db.tickets,
  update_where (is_mine_to_release kuji user) vacate db.tickets,
  refl,
  update_where-Rewrites (IsHeldUnordered kuji user) (is_mine_to_release kuji user) freed vacate
      (λ t. refl) (is_mine_to_release-IsHeldUnordered kuji user)
      (IsHeldUnordered-is_mine_to_release kuji user) db.tickets,
  reserved_after (is_mine_to_release kuji user) (λ t h. ground arith) db.tickets,
)
