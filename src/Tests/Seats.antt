-- ===== src/Tests/Seats.antt =====
-- Seats in the small shop.
use lucky_draw.Common.{
  ℕ, ◌+◌, ◌*◌, ◌||◌, ◌≡◌, refl, not, ◌&&◌, some, [], ◌∷◌, arith, count_where, select, map, List,
  Pointwise, Rewrites,
}
use lucky_draw.Model.{Db, Ticket, is_sold, is_reserved, Error, ok, err}
use lucky_draw.Ticket.Reserve.{reserve, release_mine, release_expired}
use lucky_draw.Ticket.Reserve.Exclusion.{reserve-excludes, Others}
use lucky_draw.Ticket.Reserve.Release.{
  release_expired_lem, release_mine_lem, IsOver, IsHeldUnordered, freed, is_reserved_seat,
}
use lucky_draw.Ticket.Seed.{seed_for_kuji, reshuffle_for_kuji, event_slots, is_of_kuji}
use lucky_draw.Ticket.Seed.Deal.{Dealt, seed_for_kuji-Dealt, reshuffle_for_kuji-Dealt}
use lucky_draw.Ticket.Slots.{build_slots, validate_for_slots}
use lucky_draw.Ticket.Grid.{list_grid}
use lucky_draw.Ticket.Grid.Hiding.{list_grid-reassign, reassign}
use lucky_draw.Tests.Fixtures.{shop, empty_shop, event, state_of}

abbrev held : Db
held = state_of (reserve 1 (1 ∷ 3 ∷ []) 7 10 shop)

-- Another user takes a seat and gives it back, and the clean-up job runs.
abbrev beside : Db
beside = state_of (reserve 1 (2 ∷ []) 8 12 held)

abbrev given_back : Db
given_back = state_of (release_mine 1 8 beside)

given_back-Others : Others 7 300010 held (state_of (release_expired 15 given_back))
unfolding reserve release_mine release_expired
given_back-Others =
    Others.cleaned
      (Others.released
        (Others.reserved {db' = held} {db'' = beside} Others.nothing 1 (2 ∷ []) 8 12 (omega arith)
          (omega arith) refl)
        1 8 (omega arith) refl)
      15 (omega arith) refl

reserve-excludes_example :
    (e : Error) × (reserve 1 (2 ∷ 3 ∷ []) 8 20 (state_of (release_expired 15 given_back)) ≡ err e)
unfolding reserve
reserve-excludes_example =
    reserve-excludes 1 3 (1 ∷ 3 ∷ []) (2 ∷ 3 ∷ []) 7 8 10 20 shop {db' = held} (ground arith) refl
      refl (omega arith) (omega arith) (omega arith) refl given_back-Others

-- The five minutes are over.
release_expired_lem_example :
    (n : ℕ) × (after : List Ticket) × (release_expired 400000 held
      ≡ ok (n, record held { tickets = after }))
    × Pointwise (Rewrites (IsOver 400000) freed) held.tickets after
    × (count_where is_reserved_seat after + n ≡ count_where is_reserved_seat held.tickets)
release_expired_lem_example = release_expired_lem 400000 held

release_mine_lem_example :
    (n : ℕ) × (after : List Ticket) × (release_mine 1 7 held
      ≡ ok (n, record held { tickets = after }))
    × Pointwise (Rewrites (IsHeldUnordered 1 7) freed) held.tickets after
    × (count_where is_reserved_seat after + n ≡ count_where is_reserved_seat held.tickets)
release_mine_lem_example = release_mine_lem 1 7 held

abbrev seeded : Db
seeded = state_of (seed_for_kuji (λ n. n + 200) (λ n. n * 5) 1 empty_shop)

seed_for_kuji-Dealt_example :
    (3 ≡ event.total_tickets)
    × Dealt 1 10 (event_slots empty_shop event) seeded.tickets
    × (select (λ t. not (is_of_kuji 1 t)) seeded.tickets
        ≡ select (λ t. not (is_of_kuji 1 t)) empty_shop.tickets)
unfolding seed_for_kuji build_slots validate_for_slots
seed_for_kuji-Dealt_example =
    seed_for_kuji-Dealt (λ n. n + 200) (λ n. n * 5) 1 empty_shop {ev = event} {n = 3} {db' = seeded}
      refl 10 refl

abbrev dealt_again : Db
dealt_again = state_of (reshuffle_for_kuji (λ n. n + 300) (λ n. n * 3 + 1) 1 shop)

reshuffle_for_kuji-Dealt_example :
    (count_where (λ t. is_of_kuji 1 t && (is_sold t.status || is_reserved t.status)) shop.tickets
      ≡ 0)
    × (3 ≡ event.total_tickets)
    × Dealt 1 10 (event_slots shop event) dealt_again.tickets
    × (select (λ t. not (is_of_kuji 1 t)) dealt_again.tickets
        ≡ select (λ t. not (is_of_kuji 1 t)) shop.tickets)
unfolding reshuffle_for_kuji build_slots validate_for_slots
reshuffle_for_kuji-Dealt_example =
    reshuffle_for_kuji-Dealt (λ n. n + 300) (λ n. n * 3 + 1) 1 shop {ev = event} {n = 3}
      {db' = dealt_again} refl 10 refl

list_grid-reassign_example :
    list_grid 1
      (some 7)
      20
      (record held { tickets = map (reassign (λ t. 11) (λ t. some 20)) held.tickets })
    ≡ list_grid 1 (some 7) 20 held
list_grid-reassign_example = list_grid-reassign (λ t. 11) (λ t. some 20) 1 (some 7) 20 held
