-- ===== src/Tests/Addresses.antt =====
-- Two addresses of a user.
use lucky_draw.Common.{ℕ, refl, true, false, Bool, [], ◌∷◌, arith}
use lucky_draw.Model.{Db, Address}
use lucky_draw.Address.{remove}
use lucky_draw.Address.Steps.{AddressStep, IsAddressBook, AddressStep-IsAddressBook}
use lucky_draw.Tests.Fixtures.{empty_shop, home, plain}

abbrev address : ℕ → Bool → Address
address id default = record {
  id = id;
  user_id = 7;
  fields = home;
  is_default = default;
  updated_at = id;
}

abbrev book : Db
book = record empty_shop { addresses = address 1 true ∷ address 2 false ∷ [] }

abbrev shorter : Db
shorter = record empty_shop { addresses = record (address 2 true) { updated_at = 50 } ∷ [] }

book-IsAddressBook : IsAddressBook book
book-IsAddressBook = ((refl, (refl, tt)), λ u. ground arith)

AddressStep-IsAddressBook_example : IsAddressBook shorter
unfolding remove
AddressStep-IsAddressBook_example =
    AddressStep-IsAddressBook book shorter
      (AddressStep.removed plain 7 50 1 {u = tt} {db = book} {db' = shorter} refl)
      book-IsAddressBook
