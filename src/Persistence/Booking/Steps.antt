-- ===== src/Persistence/Booking/Steps.antt =====
-- The transactions of the repository in any order, by any number of workers, from an empty
-- database. SQLite runs them one after the other (`BEGIN IMMEDIATE`), and one that raises leaves
-- the database as it was.
use war_thunder_rent_bot.Prelude.{ℕ, ◌≡◌, refl, ◌≤◌, [], Option, some, arith}
use war_thunder_rent_bot.Domain.States.{AccountStatus, SecurityState, EmailMessageType}
use war_thunder_rent_bot.Domain.Models.{OrderInput}
use war_thunder_rent_bot.Persistence.Session.{Db, Result, ok, account_of}
use war_thunder_rent_bot.Persistence.Session.Post.{Post-ok}
use war_thunder_rent_bot.Persistence.Booking.{Booked, live, rental_of}
use war_thunder_rent_bot.Persistence.Booking.Completion.{KeepsBooked}
use war_thunder_rent_bot.Persistence.Booking.InboxSteps.{Commits, InboxStep, InboxStep-Quiet}
use war_thunder_rent_bot.Persistence.Booking.Code.{create_send_otp-Booked, Booked-Quiet}
use war_thunder_rent_bot.Persistence.FunPayEvents.{create_send_otp}
use war_thunder_rent_bot.Table.{rowcount, tally, get}
use war_thunder_rent_bot.Persistence.Rows.{AccountRow, RentalRow, FunPayEventRow}
use war_thunder_rent_bot.Persistence.Booking.Finish.{
  operation_completed-Booked, operation_failed-Booked,
}
use war_thunder_rent_bot.Persistence.Booking.Expiry.{expire_due-Booked, extend_active_rental-Booked}
use war_thunder_rent_bot.Persistence.Booking.Alert.{record_active_security_event-Booked}
use war_thunder_rent_bot.Persistence.Booking.Repair.{
  prepare_operation-Booked, recover_expired_leases-Booked, reconcile-Booked,
}
use war_thunder_rent_bot.Persistence.Booking.Reservation.{
  add_account-Booked, add_account_lot-Booked, reserve_order_once-Booked,
}
use war_thunder_rent_bot.Persistence.Booking.Claims.{
  claim_startup_recovery-Booked, release_recovery_claim-Booked, claim_operation-Booked,
  claim_waiting-Booked, fence_normal-Booked, fence_recovery-Booked, record_maintenance-Booked,
  record_password_change-Booked, set_security_state-Booked, wait_for_buyer_otp-Booked,
  transition_account-Booked,
}
use war_thunder_rent_bot.Persistence.Repository.Claims.{
  claim_startup_recovery, release_recovery_claim, claim_operation, claim_waiting_security_operation,
  fence_normal_side_effect, fence_recovery_side_effect,
}
use war_thunder_rent_bot.Persistence.Repository.Security.{
  Windows, prepare_operation, record_maintenance_login_requested, record_password_change_requested,
  set_security_state, wait_for_buyer_otp,
}
use war_thunder_rent_bot.Persistence.Repository.Recovery.{
  recover_expired_leases_once, reconcile, transition_account,
}
use war_thunder_rent_bot.Persistence.Repository.Completion.{operation_completed, operation_failed}
use war_thunder_rent_bot.Persistence.Repository.Expiry.{
  expire_due, extend_active_rental, record_active_security_event,
}
use war_thunder_rent_bot.Persistence.Repository.Reservation.{
  Attempt, add_account, add_account_lot, reserve_order_once,
}

pub data Step (db db' : Db) : Type 0 where
  adds_account : (i code now : ℕ) → Commits (add_account i code now) db db' → Step db db'
  adds_lot :
      (new_id i lot now : ℕ) → Commits (add_account_lot new_id i lot now) db db' → Step db db'
  reserves :
      (t : Attempt) (order : OrderInput) (now : ℕ)
      → Commits (reserve_order_once t order now) db db'
      → Step db db'
  claims :
      (token i now lease : ℕ) → Commits (claim_operation token i now lease) db db' → Step db db'
  resumes :
      (token i now lease : ℕ)
      → Commits (claim_waiting_security_operation token i now lease) db db'
      → Step db db'
  claims_recovery :
      (token i now : ℕ) → Commits (claim_startup_recovery token i now) db db' → Step db db'
  releases : (i token : ℕ) → Commits (release_recovery_claim i token) db db' → Step db db'
  fences :
      (i : ℕ) (token : Option ℕ) (now lease : ℕ)
      → Commits (fence_normal_side_effect i token now lease) db db'
      → Step db db'
  fences_recovery :
      (i : ℕ) (token : Option ℕ) (now : ℕ)
      → Commits (fence_recovery_side_effect i token now) db db'
      → Step db db'
  prepares : (i now : ℕ) → Commits (prepare_operation i now) db db' → Step db db'
  notes_login :
      (i now : ℕ) → Commits (record_maintenance_login_requested i now) db db' → Step db db'
  notes_password_change :
      (i now : ℕ) → Commits (record_password_change_requested i now) db db' → Step db db'
  sets_security :
      (i now : ℕ) (state : SecurityState)
      → Commits (set_security_state i state now) db db'
      → Step db db'
  waits : (i : ℕ) → Commits (wait_for_buyer_otp i) db db' → Step db db'
  completes :
      (new_id i now : ℕ) (recovery normal : Option ℕ)
      → Commits (operation_completed new_id i now recovery normal) db db'
      → Step db db'
  fails :
      (i now : ℕ) (recovery normal : Option ℕ)
      → Commits (operation_failed i now recovery normal) db db'
      → Step db db'
  expires : (ids : ℕ → ℕ) (now : ℕ) → Commits (expire_due ids now) db db' → Step db db'
  extends :
      (i buyer extension now : ℕ)
      → Commits (extend_active_rental i buyer extension now) db db'
      → Step db db'
  alerts :
      (new_id i correlation now : ℕ) (t : EmailMessageType)
      → Commits (record_active_security_event new_id i t correlation now) db db'
      → Step db db'
  recovers :
      (w : Windows) (now : ℕ) → Commits (recover_expired_leases_once w now) db db' → Step db db'
  reconciles : (now : ℕ) → Commits (reconcile now) db db' → Step db db'
  -- an operator hands an account back only when no rental on it is live
  transitions :
      (i version now : ℕ) (expected target : AccountStatus)
      → (target ≡ AccountStatus.available → live db i ≡ 0)
      → Commits (transition_account i expected version target now) db db'
      → Step db db'
  -- the rental that is passed stands on the account that the database has for it
  asks_for_code :
      (new_id now : ℕ) (e : FunPayEventRow) (rental : RentalRow)
      → ((x : RentalRow) → rental_of db rental.id ≡ some x → x.account_id ≡ rental.account_id)
      → Commits (create_send_otp new_id e rental now) db db'
      → Step db db'
  reads_inbox : InboxStep db db' → Step db db'

abbrev pub no_rows : Db
no_rows = record {
  accounts = [];
  lots = [];
  orders = [];
  rentals = [];
  operations = [];
  audit_events = [];
  security_events = [];
  emails = [];
  otp_requests = [];
  processed_messages = [];
  funpay_events = [];
  message_receipts = [];
}

pub data Reachable : Db → Type 0 where
  start : Reachable no_rows
  after : {db db' : Db} → Reachable db → Step db db' → Reachable db'

committed :
    {A : Type 0} {r : Result (A × Db)} {db' : Db}
    → KeepsBooked r
    → (a : A) × (r ≡ ok (a, db'))
    → Booked db'
committed {A} {r} kept (a, e) = Post-ok {r = r} kept e

-- A transaction of the repositories that commits keeps the invariant `Booked`: unique keys, at most one
-- live rental on an account and none on an available or unknown one, and every operation of a rental
-- on the account of that rental. Two of them are asked for more: `transition_account` moves an account
-- to AVAILABLE only while no rental on it is live, and `create_send_otp` is given a rental with the
-- account that the database has for it.
pub Step-Booked : {db db' : Db} → Booked db → Step db db' → Booked db'
Step-Booked {db} b (adds_account i code now s) = committed (add_account-Booked i code now db b) s
Step-Booked {db} b (adds_lot new_id i lot now s) =
    committed (add_account_lot-Booked new_id i lot now db b) s
Step-Booked {db} b (reserves t order now s) =
    committed (reserve_order_once-Booked t order now db b) s
Step-Booked {db} b (claims token i now lease s) =
    committed (claim_operation-Booked i db b token now lease) s
Step-Booked {db} b (resumes token i now lease s) =
    committed (claim_waiting-Booked i db b token now lease) s
Step-Booked {db} b (claims_recovery token i now s) =
    committed (claim_startup_recovery-Booked i db b token now) s
Step-Booked {db} b (releases i token s) = committed (release_recovery_claim-Booked i db b token) s
Step-Booked {db} b (fences i token now lease s) =
    committed (fence_normal-Booked i db b token now lease) s
Step-Booked {db} b (fences_recovery i token now s) =
    committed (fence_recovery-Booked i db b token now) s
Step-Booked {db} b (prepares i now s) = committed (prepare_operation-Booked i now db b) s
Step-Booked {db} b (notes_login i now s) = committed (record_maintenance-Booked i db b now) s
Step-Booked {db} b (notes_password_change i now s) =
    committed (record_password_change-Booked i db b now) s
Step-Booked {db} b (sets_security i now state s) =
    committed (set_security_state-Booked i db b state now) s
Step-Booked {db} b (waits i s) = committed (wait_for_buyer_otp-Booked i db b) s
Step-Booked {db} b (completes new_id i now recovery normal s) =
    committed (operation_completed-Booked new_id i now recovery normal db b) s
Step-Booked {db} b (fails i now recovery normal s) =
    committed (operation_failed-Booked i now recovery normal db b) s
Step-Booked {db} b (expires ids now s) = committed (expire_due-Booked ids now db b) s
Step-Booked {db} b (extends i buyer extension now s) =
    committed (extend_active_rental-Booked i buyer extension now db b) s
Step-Booked {db} b (alerts new_id i correlation now t s) =
    committed (record_active_security_event-Booked new_id i t correlation now db b) s
Step-Booked {db} b (recovers w now s) = committed (recover_expired_leases-Booked w now db b) s
Step-Booked {db} b (reconciles now s) = committed (reconcile-Booked now db b) s
Step-Booked {db} b (transitions i version now expected target idle s) =
    committed (transition_account-Booked i db b expected version target now idle) s
Step-Booked {db} b (asks_for_code new_id now e rental known s) =
    committed (create_send_otp-Booked new_id now e rental db b known) s
Step-Booked {db} b (reads_inbox s) = Booked-Quiet (InboxStep-Quiet s) b

no_rows-Booked : Booked no_rows
unfolding rowcount tally get
no_rows-Booked = record {
  keys = record {
    accounts = λ i. omega arith;
    orders = λ i. omega arith;
    rentals = λ i. omega arith;
    operations = λ i. omega arith;
  };
  single = λ a. omega arith;
  free = λ a r h. cc;
  vacant = λ a h. refl;
  linked = λ i r op x h. cc;
  known = λ i r op h. cc;
}

pub reachable-Booked : {db : Db} → Reachable db → Booked db
reachable-Booked start = no_rows-Booked
reachable-Booked (after r s) = Step-Booked (reachable-Booked r) s

-- Whatever the workers do and in whatever order, no account ever has two live rentals, and an
-- account that is for sale has none.
pub never_double_booked :
    {db : Db}
    → Reachable db
    → (a : ℕ)
    → (live db a ≤ 1)
      × ((r : AccountRow)
          → account_of db a ≡ some r
          → r.status ≡ AccountStatus.available
          → live db a ≡ 0)
never_double_booked r a = let b = reachable-Booked r in (b.single a, b.free a)
