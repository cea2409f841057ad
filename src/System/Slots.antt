-- ===== src/System/Slots.antt =====
-- src/system_program.rs: the slots that a handler indexes, and what a handler returns.
use hopper_svm.Prelude.{ℕ, suc, String, List, [], ◌∷◌, leb, length}
use hopper_svm.Error.{Result, ok, err, panic, require, account_index_out_of_bounds}
use hopper_svm.Log
use hopper_svm.Builtin.{Session, Invocation}
use hopper_svm.Account.{KeyedAccount}

-- The accounts after a success, and the message that is logged.
abbrev pub Handled : Type 0
Handled = Result (List KeyedAccount × String)

abbrev pub Slots1 : Type 0
Slots1 = KeyedAccount × List KeyedAccount

abbrev pub Slots2 : Type 0
Slots2 = KeyedAccount × KeyedAccount × List KeyedAccount

abbrev pub Slots3 : Type 0
Slots3 = KeyedAccount × KeyedAccount × KeyedAccount × List KeyedAccount

-- Five slots, of which the third and the fourth are only carried along.
abbrev pub Slots5 : Type 0
Slots5 =
    KeyedAccount × KeyedAccount × KeyedAccount × KeyedAccount × KeyedAccount × List KeyedAccount

-- `if accounts.is_empty()`, and then `accounts[0]`; so below for 2, 3 and 5 accounts.
unfoldable pub one_slot : List KeyedAccount → Result Slots1
one_slot [] = err (account_index_out_of_bounds 0 0)
one_slot (a ∷ rest) = ok (a, rest)

unfoldable pub two_slots : List KeyedAccount → Result Slots2
two_slots (a ∷ b ∷ rest) = ok (a, b, rest)
two_slots accounts = err (account_index_out_of_bounds 1 (length accounts))

unfoldable pub three_slots : List KeyedAccount → Result Slots3
three_slots (a ∷ b ∷ c ∷ rest) = ok (a, b, c, rest)
three_slots accounts = err (account_index_out_of_bounds 2 (length accounts))

unfoldable pub five_slots : List KeyedAccount → Result Slots5
five_slots (a ∷ b ∷ c ∷ d ∷ e ∷ rest) = ok (a, b, c, d, e, rest)
five_slots accounts = err (account_index_out_of_bounds 4 (length accounts))

abbrev pub Slots4 : Type 0
Slots4 = KeyedAccount × KeyedAccount × KeyedAccount × KeyedAccount × List KeyedAccount

abbrev pub Slots6 : Type 0
Slots6 =
    KeyedAccount
    × KeyedAccount
    × KeyedAccount
    × KeyedAccount
    × KeyedAccount
    × KeyedAccount
    × List KeyedAccount

unfoldable pub four_slots : List KeyedAccount → Result Slots4
four_slots (a ∷ b ∷ c ∷ d ∷ rest) = ok (a, b, c, d, rest)
four_slots accounts = err (account_index_out_of_bounds 3 (length accounts))

unfoldable pub six_slots : List KeyedAccount → Result Slots6
six_slots (a ∷ b ∷ c ∷ d ∷ e ∷ f ∷ rest) = ok (a, b, c, d, e, f, rest)
six_slots accounts = err (account_index_out_of_bounds 5 (length accounts))

-- The `require_account` of the stake and of the vote program.
abbrev pub require_account : List KeyedAccount → ℕ → Result (Unit {0})
require_account accounts index =
    require (leb (suc index) (length accounts))
      (account_index_out_of_bounds index (length accounts))

-- How a program ends whose handlers write nothing before they fail.
abbrev pub concluded : Handled → List KeyedAccount → Session → Invocation
concluded (ok (after, message)) accounts s = record {
  result = ok tt;
  accounts = after;
  session = record s { logs = Log.log_text s.logs message };
}
concluded (err e) accounts s = record { result = err e; accounts = accounts; session = s }
concluded panic accounts s = record { result = panic; accounts = accounts; session = s }
