-- ===== src/Ticket/Reserve/Exclusion.antt =====
-- Two users never hold the same seat at the same time.
use lucky_draw.Common.{
  ℕ, ◌+◌, ◌≤◌, ◌<◌, ◌≡◌, ◌≢◌, sym, ◌∙◌, true, Bool, ◌&&◌, List, [], ◌∷◌, arith, ◌==◌, contains,
  select, count_where, update_where, Distinct, Distinct-updated, ◌=?◌, false, refl,
}
use lucky_draw.Model.{Db, Ticket, ok, err, Error, is_reserved}
use lucky_draw.Tx.{Result-err}
use lucky_draw.Ticket.Reserve.{
  Reservation, reserve, release_mine, release_expired, is_target, is_expired, is_mine_to_release,
  occupy, vacate, reserve_ttl_ms,
}
use lucky_draw.Ticket.Reserve.Hold.{is_blocked, by_id, reserve-Held, Held-tickets}

abbrev pub is_seat : ℕ → ℕ → Ticket → Bool
is_seat kuji position t = t.kuji_event_id == kuji && t.position == position

contains_eq : (xs : List ℕ) (a b : ℕ) → a ≡ b → contains xs a ≡ true → contains xs b ≡ true
contains_eq xs a b e h = rw (← e) h

count_where-select :
    {A : Type 0} (p q : A → Bool) (xs : List A)
    → count_where q (select p xs) ≡ count_where (λ x. p x && q x) xs
count_where-select p q [] = ground arith
count_where-select p q (x ∷ xs) = ground (arith, count_where-select p q xs)

-- What other users than `u` and the clean-up job do before the time `until`.
pub data Others (u until : ℕ) : Db → Db → Type 0 where
  nothing : {db : Db} → Others u until db db
  reserved :
      {db db' db'' : Db}
      → Others u until db db'
      → (kuji : ℕ) (ps : List ℕ) (v now : ℕ) → u ≢ v
      → now < until
      → {r : Reservation} → reserve kuji ps v now db' ≡ ok (r, db'')
      → Others u until db db''
  released :
      {db db' db'' : Db}
      → Others u until db db'
      → (kuji v : ℕ) → u ≢ v
      → {n : ℕ} → release_mine kuji v db' ≡ ok (n, db'')
      → Others u until db db''
  cleaned :
      {db db' db'' : Db}
      → Others u until db db'
      → (now : ℕ) → now < until
      → {n : ℕ} → release_expired now db' ≡ ok (n, db'')
      → Others u until db db''

-- A seat that the user holds until this time.
abbrev is_kept : ℕ → ℕ → ℕ → ℕ → Ticket → Bool
is_kept kuji position u until t =
    is_seat kuji position t
    && is_reserved t.status
    && t.reserved_by_user_id =? u
    && t.reserve_expires_at =? until

module _ (kuji position u until : ℕ) where
  -- Different identifiers, and the seat is held.
  abbrev IsKept : Db → Type 0
  IsKept db =
      Distinct by_id db.tickets × (0 < count_where (is_kept kuji position u until) db.tickets)

  -- A write that leaves out the seats that are kept.
  kept_after :
      (p : Ticket → Bool) (f : Ticket → Ticket)
      → ((t : Ticket) → is_kept kuji position u until t ≡ true → p t ≡ false)
      → (xs : List Ticket)
      → count_where (is_kept kuji position u until) xs
        ≤ count_where (is_kept kuji position u until) (update_where p f xs)
  kept_after p f apart [] = omega arith
  kept_after p f apart (x ∷ xs) = ground (arith, kept_after p f apart xs, apart x)

  -- Another user's call that took a kept seat would have found it blocked.
  kept_after_reserve :
      (k v now : ℕ) (ps : List ℕ)
      → u ≢ v
      → now < until
      → (xs : List Ticket) → count_where (λ t. is_target k ps t && is_blocked v now t) xs ≡ 0
      → count_where (is_kept kuji position u until) xs
        ≤ count_where
            (is_kept kuji position u until)
            (update_where (is_target k ps) (occupy v now) xs)
  kept_after_reserve k v now ps ne lt [] h = omega arith
  kept_after_reserve k v now ps ne lt (x ∷ xs) h =
      ground (arith, kept_after_reserve k v now ps ne lt xs)

  IsKept-update_where :
      (p : Ticket → Bool) (f : Ticket → Ticket) (db db' : Db)
      → ((t : Ticket) → (f t).id ≡ t.id)
      → db'.tickets ≡ update_where p f db.tickets
      → count_where (is_kept kuji position u until) db.tickets
        ≤ count_where (is_kept kuji position u until) (update_where p f db.tickets)
      → IsKept db
      → IsKept db'
  IsKept-update_where p f db db' keeps same le (unique, held) = (
    rw same (Distinct-updated by_id p f keeps db.tickets unique),
    rw same (omega (arith, le, held)),
  )

  Others-IsKept : {db db' : Db} → Others u until db db' → IsKept db → IsKept db'
  unfolding release_mine release_expired
  Others-IsKept Others.nothing h = h
  Others-IsKept {db' = db''} (Others.reserved {db' = db'} before k ps v now ne lt done) h =
      let ih = Others-IsKept before h in
      let taken = reserve-Held k ps v now db' done in
      IsKept-update_where (is_target k ps) (occupy v now) db' db'' (λ t. refl)
        (Held-tickets k ps v now db' db'' ih.0 taken)
        (kept_after_reserve k v now ps ne lt db'.tickets
          (sym (count_where-select (is_target k ps) (is_blocked v now) db'.tickets) ∙ taken.free))
        ih
  Others-IsKept {db' = db''} (Others.released {db' = db'} before k v ne done) h =
      IsKept-update_where (is_mine_to_release k v) vacate db' db'' (λ t. refl) (ground arith)
        (kept_after (is_mine_to_release k v) vacate (λ t kept. ground arith) db'.tickets)
        (Others-IsKept before h)
  Others-IsKept {db' = db''} (Others.cleaned {db' = db'} before now lt done) h =
      IsKept-update_where (is_expired now) vacate db' db'' (λ t. refl) (ground arith)
        (kept_after (is_expired now) vacate (λ t kept. ground arith) db'.tickets)
        (Others-IsKept before h)

  -- A seat that is kept stands in the way of `v`.
  blocked_while :
      (qs : List ℕ) (v later : ℕ)
      → contains qs position ≡ true
      → u ≢ v
      → later < until
      → (xs : List Ticket)
      → count_where (is_kept kuji position u until) xs
        ≤ count_where (λ t. is_target kuji qs t && is_blocked v later t) xs
  blocked_while qs v later inq ne lt [] = omega arith
  blocked_while qs v later inq ne lt (x ∷ xs) =
      ground (arith, blocked_while qs v later inq ne lt xs, contains_eq qs position x.position)

-- What a user has just taken is kept.
kept_now :
    (kuji position u now : ℕ) (ps : List ℕ)
    → contains ps position ≡ true
    → (xs : List Ticket)
    → count_where (is_seat kuji position) xs
      ≤ count_where
          (is_kept kuji position u (now + reserve_ttl_ms))
          (update_where (is_target kuji ps) (occupy u now) xs)
kept_now kuji position u now ps inp [] = omega arith
kept_now kuji position u now ps inp (x ∷ xs) =
    ground (arith, kept_now kuji position u now ps inp xs, contains_eq ps position x.position)

-- If seats have different identifiers and a user has reserved an existing seat, then whatever other
-- users reserve and release and the clean-up job gives back within the five minutes, no other user's
-- call that asks for the seat succeeds before the five minutes are over.
pub reserve-excludes :
    (kuji position : ℕ) (ps qs : List ℕ) (u v now later : ℕ) (db : Db) {r : Reservation}
    {db' db'' : Db}
    → Distinct by_id db.tickets
    → contains ps position ≡ true
    → contains qs position ≡ true
    → 0 < count_where (is_seat kuji position) db.tickets
    → u ≢ v
    → later < now + reserve_ttl_ms
    → reserve kuji ps u now db ≡ ok (r, db')
    → Others u (now + reserve_ttl_ms) db' db''
    → (e : Error) × (reserve kuji qs v later db'' ≡ err e)
reserve-excludes kuji position ps qs u v now later db {r} {db'} {db''} unique inp inq seat ne lt h
      run =
    Result-err (reserve kuji qs v later db'') λ (s, after) k.
      let same = Held-tickets kuji ps u now db db' unique (reserve-Held kuji ps u now db h) in
      let until = now + reserve_ttl_ms in
      let kept = Others-IsKept kuji position u until run (
        rw same (
            Distinct-updated by_id (is_target kuji ps) (occupy u now) (λ t. refl) db.tickets
              unique),
        rw same (omega (arith, seat, kept_now kuji position u now ps inp db.tickets)),
      ) in
      let free = (reserve-Held kuji qs v later db'' k).free in
      omega (
        arith,
        kept.1,
        blocked_while kuji position u until qs v later inq ne lt db''.tickets,
        count_where-select (is_target kuji qs) (is_blocked v later) db''.tickets,
        free,
      )
