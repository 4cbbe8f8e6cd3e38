-- ===== src/Persistence/Booking.antt =====
-- The invariant behind the repositories: an account is let to one rental at a time. A rental is live
-- from its reservation until it is finished, cancelled or handed to manual review.
pub mod Rows
pub mod Completion
pub mod Failure
pub mod Finish
pub mod Expiry
pub mod Alert
pub mod Repair
pub mod Reservation
pub mod Claims
pub mod Inbox
pub mod InboxSteps
pub mod Code
pub mod Steps
pub mod Runs
use mathlib.Core.Path.{subst}
use war_thunder_rent_bot.Prelude.{
  ℕ, ◌+◌, ◌≤◌, ◌≡◌, sym, Bool, true, false, ◌&&◌, none, some, arith, nat_beq, nat_beq_iff,
  if◌then◌else◌, inl, inr, Option-cases, is_none,
}
use war_thunder_rent_bot.Domain.States.{AccountStatus, RentalStatus}
use war_thunder_rent_bot.Table.{tally}
use war_thunder_rent_bot.Table.Laws.{tally-save, get-append, get-append_some}
use war_thunder_rent_bot.Persistence.Rows.{AccountRow, RentalRow, OperationRow}
use war_thunder_rent_bot.Persistence.Session.{Db, account_of, rental_of, operation_of}
use war_thunder_rent_bot.Persistence.Session.Laws.{
  HasKeys, with_account, with_rental, with_operation, HasKeys-with_account, HasKeys-with_rental,
  HasKeys-with_operation, account_of-with_account, rental_of-with_rental,
  operation_of-with_operation,
}
use war_thunder_rent_bot.Persistence.Repository.Internal.Laws.{
  with_new_operation, HasKeys-with_new_operation,
}

abbrev pub is_live : RentalStatus → Bool
is_live RentalStatus.finished = false
is_live RentalStatus.cancelled = false
is_live RentalStatus.manual_review = false
is_live _ = true

abbrev pub live_on : ℕ → RentalRow → ℕ
live_on a r = if nat_beq r.account_id a && is_live r.status then 1 else 0

-- The number of live rentals of an account.
abbrev pub live : Db → ℕ → ℕ
live db a = tally (live_on a) db.rentals

pub record Booked (db : Db) : Type 0 where
  pub keys : HasKeys db
  pub single : (a : ℕ) → live db a ≤ 1
  pub free :
      (a : ℕ) (r : AccountRow)
      → account_of db a ≡ some r
      → r.status ≡ AccountStatus.available
      → live db a ≡ 0
  -- a live rental is of an account that exists
  pub vacant : (a : ℕ) → account_of db a ≡ none → live db a ≡ 0
  -- an operation stands on the account of its rental
  pub linked :
      (i r : ℕ) (op : OperationRow) (x : RentalRow)
      → operation_of db i ≡ some op
      → op.rental_id ≡ some r
      → rental_of db r ≡ some x
      → x.account_id ≡ op.account_id
  -- and its rental exists
  pub known :
      (i r : ℕ) (op : OperationRow)
      → operation_of db i ≡ some op
      → op.rental_id ≡ some r
      → is_none (rental_of db r) ≡ false

-- What changes none of the three tables keeps the invariant.
pub Booked-same :
    {db db' : Db}
    → db'.accounts ≡ db.accounts
    → db'.rentals ≡ db.rentals
    → db'.operations ≡ db.operations
    → HasKeys db'
    → Booked db
    → Booked db'
Booked-same {db} {db'} ea er eo k b = record {
  keys = k;
  single = λ a. rw er (b.single a);
  free = λ a r. rw (ea, er) (b.free a r);
  vacant = λ a. rw (ea, er) (b.vacant a);
  linked = λ i r op x. rw (eo, er) (b.linked i r op x);
  known = λ i r op. rw (eo, er) (b.known i r op);
}

module _ (db : Db) (b : Booked db) where
  pub Booked-with_operation :
      (new old : OperationRow)
      → operation_of db old.id ≡ some old
      → new.id ≡ old.id
      → new.account_id ≡ old.account_id
      → new.rental_id ≡ old.rental_id
      → Booked (with_operation new db)
  Booked-with_operation new old found ei ea er = record {
    keys = HasKeys-with_operation new db b.keys;
    single = b.single;
    free = b.free;
    vacant = b.vacant;
    linked = λ i r op x there el found_rental. ground (
      arith,
      operation_of-with_operation new db ei found i,
      nat_beq_iff old.id i,
      b.linked old.id r old x,
      b.linked i r op x,
    );
    known = λ i r op there el. ground (
      arith,
      operation_of-with_operation new db ei found i,
      nat_beq_iff old.id i,
      b.known old.id r old,
      b.known i r op,
    );
  }

  -- An account that does not become available, or has no live rental.
  pub Booked-with_account :
      (new old : AccountRow)
      → account_of db old.id ≡ some old
      → new.id ≡ old.id
      → (new.status ≡ AccountStatus.available → live db old.id ≡ 0)
      → Booked (with_account new db)
  Booked-with_account new old found ei idle = record {
    keys = HasKeys-with_account new db b.keys;
    single = b.single;
    free = λ a r there status.
        ground (
          arith,
          account_of-with_account new db ei found a,
          nat_beq_iff old.id a,
          idle,
          b.free a r,
        );
    vacant = λ a gone.
        ground (arith, account_of-with_account new db ei found a, nat_beq_iff old.id a, b.vacant a);
    linked = b.linked;
    known = b.known;
  }

  live-with_rental :
      (new old : RentalRow)
      → rental_of db old.id ≡ some old
      → new.id ≡ old.id
      → (a : ℕ) → live (with_rental new db) a + live_on a old ≡ live db a + live_on a new
  live-with_rental new old found ei a =
      tally-save (λ r. r.id) new (live_on a) db.rentals b.keys.rentals
        (subst (λ n. rental_of db n ≡ some old) (sym ei) found)

  -- A rental that does not come alive, and stays on its account.
  pub Booked-with_rental :
      (new old : RentalRow)
      → rental_of db old.id ≡ some old
      → new.id ≡ old.id
      → new.account_id ≡ old.account_id
      → (is_live new.status ≡ true → is_live old.status ≡ true)
      → Booked (with_rental new db)
  Booked-with_rental new old found ei ea stays = record {
    keys = HasKeys-with_rental new db b.keys;
    single = λ a. ground (arith, b.single a, live-with_rental new old found ei a);
    free = λ a r there status.
        ground (arith, b.free a r there status, live-with_rental new old found ei a);
    vacant = λ a gone. ground (arith, b.vacant a gone, live-with_rental new old found ei a);
    linked = λ i r op x there el found_rental. ground (
      arith,
      rental_of-with_rental new db ei found r,
      nat_beq_iff old.id r,
      b.linked i r op old,
      b.linked i r op x,
    );
    known = λ i r op there el.
        ground (arith, rental_of-with_rental new db ei found r, b.known i r op there el);
  }

  -- A live rental that ends leaves its account without one.
  pub live_ended :
      (new old : RentalRow)
      → rental_of db old.id ≡ some old
      → new.id ≡ old.id
      → new.account_id ≡ old.account_id
      → is_live old.status ≡ true
      → is_live new.status ≡ false
      → live (with_rental new db) old.account_id ≡ 0
  live_ended new old found ei ea was ends = ground (
    arith,
    b.single old.account_id,
    live-with_rental new old found ei old.account_id,
    nat_beq_iff old.account_id old.account_id,
  )

  -- A new operation on the account of its rental.
  pub Booked-with_new_operation :
      (new : OperationRow) (r : ℕ)
      → operation_of db new.id ≡ none
      → new.rental_id ≡ some r
      → is_none (rental_of db r) ≡ false
      → ((x : RentalRow) → rental_of db r ≡ some x → x.account_id ≡ new.account_id)
      → Booked (with_new_operation new db)
  Booked-with_new_operation new r fresh el here on_account = record {
    keys = HasKeys-with_new_operation new db fresh b.keys;
    single = b.single;
    free = b.free;
    vacant = b.vacant;
    linked = λ i s op x there ol found_rental. elim (Option-cases (operation_of db i)) [
      | inl gone ↦ ground (arith, get-append (λ q. q.id) i db.operations new gone, on_account x)
      | inr (old, found) ↦ ground (
        arith,
        get-append_some (λ q. q.id) i db.operations new {s = old} found,
        b.linked i s old x found,
      )
    ];
    known = λ i s op there ol. elim (Option-cases (operation_of db i)) [
      | inl gone ↦ ground (arith, get-append (λ q. q.id) i db.operations new gone, here)
      | inr (old, found) ↦ ground (
        arith,
        get-append_some (λ q. q.id) i db.operations new {s = old} found,
        b.known i s old found,
      )
    ];
  }
