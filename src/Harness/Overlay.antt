-- ===== src/Harness/Overlay.antt =====
-- src/lib.rs: the account store and the calls that read and write it.
use hopper_svm.Prelude.{
  ℕ, false, Option, none, some, List, [], ◌∷◌, ◌++◌, contains, leb, length, replicate, sat_add,
  isize_max, if◌then◌else◌,
}
use hopper_svm.Bytes.{le_encode, splice}
use hopper_svm.Error.{Pubkey}
use hopper_svm.Account.{KeyedAccount, AccountMeta, Instruction}
use hopper_svm.Sdk.{Sdk}
use hopper_svm.Map
use hopper_svm.Map.{Map}
use hopper_svm.Sysvar.{minimum_balance}
use hopper_svm.Harness.{HopperSvm, HopperExecutionResult, process_instruction}
use hopper_svm.Harness.Chain.{process_instruction_chain}

abbrev pub Overlay : Type 0
Overlay = Map KeyedAccount

unfoldable pub set_account : HopperSvm → KeyedAccount → HopperSvm
set_account svm a = record svm { account_store = Map.insert a.address a svm.account_store }

unfoldable pub get_account : HopperSvm → Pubkey → Option KeyedAccount
get_account svm addr = Map.lookup addr svm.account_store

unfoldable pub remove_account : HopperSvm → Pubkey → Option KeyedAccount × HopperSvm
remove_account svm addr = (
  Map.lookup addr svm.account_store,
  record svm { account_store = Map.remove addr svm.account_store },
)

unfoldable pub clear_accounts : HopperSvm → HopperSvm
clear_accounts svm = record svm { account_store = [] }

unfoldable pub snapshot_accounts : HopperSvm → Overlay
snapshot_accounts svm = svm.account_store

unfoldable pub restore_accounts : HopperSvm → Overlay → HopperSvm
restore_accounts svm snapshot = record svm { account_store = snapshot }

-- Writes the bytes of a word into the account at `addr`; the harness panics if there is none, or if
-- its data is shorter than `needed`.
abbrev pub poke : HopperSvm → Pubkey → ℕ → ℕ → ℕ → Option HopperSvm
poke svm addr needed off value = elim (Map.lookup addr svm.account_store) [
  | none ↦ none
  | some a ↦
      if leb needed (length a.bytes)
      then some (record svm {
        account_store =
            Map.insert addr (record a { bytes = splice off (le_encode 8 value) a.bytes })
              svm.account_store;
      })
      else none
]

unfoldable pub set_token_balance : HopperSvm → Pubkey → ℕ → Option HopperSvm
set_token_balance svm addr amount = poke svm addr 72 64 amount

unfoldable pub set_mint_supply : HopperSvm → Pubkey → ℕ → Option HopperSvm
set_mint_supply svm addr supply = poke svm addr 44 36 supply

-- `if !seen.iter().any(|p| p == key) { seen.push(key); }`
unfoldable pub push_new : List Pubkey → Pubkey → List Pubkey
push_new seen k = if contains seen k then seen else seen ++ k ∷ []

unfoldable pub push_metas : List Pubkey → List AccountMeta → List Pubkey
push_metas seen [] = seen
push_metas seen (m ∷ ms) = push_metas (push_new seen m.pubkey) ms

unfoldable pub push_instructions : List Pubkey → List Instruction → List Pubkey
push_instructions seen [] = seen
push_instructions seen (ix ∷ ixs) =
    push_instructions (push_metas (push_new seen ix.program_id) ix.accounts) ixs

-- `for acct in result.resulting_accounts() { store.insert(acct.address, acct.clone()); }`
unfoldable pub insert_all : Overlay → List KeyedAccount → Overlay
insert_all store [] = store
insert_all store (a ∷ rest) = insert_all (Map.insert a.address a store) rest

unfoldable pub commit : HopperSvm → HopperExecutionResult → HopperSvm
commit svm r = record svm {
  account_store = insert_all svm.account_store r.outcome.resulting_accounts;
}

-- `if result.is_success() { self.commit(&result); }`
unfoldable pub commit_success : HopperExecutionResult → HopperSvm → HopperSvm
commit_success r svm = elim r.outcome.error [ none ↦ commit svm r | some e ↦ svm ]

module _ (sdk : Sdk) where
  -- The account that stands for an address with no entry.
  abbrev pub blank_account : Pubkey → ℕ → KeyedAccount
  blank_account addr lamports = record {
    address = addr;
    lamports = lamports;
    bytes = [];
    owner = sdk.system_id;
    executable = false;
    rent_epoch = 0;
  }

  unfoldable pub airdrop : HopperSvm → Pubkey → ℕ → HopperSvm
  airdrop svm addr lamports = record svm {
    account_store = elim (Map.lookup addr svm.account_store) [
      | some a ↦
          Map.insert addr (record a { lamports = sat_add a.lamports lamports }) svm.account_store
      | none ↦ Map.insert addr (blank_account addr lamports) svm.account_store
    ];
  }

  -- Behind `vec![0u8; space]`, which panics above `isize::MAX`, and the harness with it.
  unfoldable pub create_account : HopperSvm → Pubkey → ℕ → Pubkey → Option HopperSvm
  create_account svm addr space owner =
      if leb space isize_max
      then some (record svm {
        account_store =
            Map.insert addr
              (record {
                address = addr;
                lamports = minimum_balance sdk svm.sysvars.rent space;
                bytes = replicate space 0;
                owner = owner;
                executable = false;
                rent_epoch = 0;
              })
              svm.account_store;
      })
      else none

  unfoldable pub fetch : Overlay → List Pubkey → List KeyedAccount
  fetch store [] = []
  fetch store (k ∷ ks) =
      elim (Map.lookup k store) [ some a ↦ a | none ↦ blank_account k 0 ] ∷ fetch store ks

  unfoldable pub collect_inputs : HopperSvm → Instruction → List KeyedAccount
  collect_inputs svm ix =
      fetch svm.account_store (push_metas (push_new [] ix.program_id) ix.accounts)

  unfoldable pub process_instruction_with_store :
      HopperSvm → Instruction → Option (HopperExecutionResult × HopperSvm)
  process_instruction_with_store svm ix =
      elim (process_instruction sdk svm ix (collect_inputs svm ix)) [
        | none ↦ none
        | some (r, svm') ↦ some (r, commit_success r svm')
      ]

  unfoldable pub process_instruction_chain_with_store :
      HopperSvm → List Instruction → Option (HopperExecutionResult × HopperSvm)
  process_instruction_chain_with_store svm ixs =
      elim (process_instruction_chain sdk svm ixs
        (fetch svm.account_store (push_instructions [] ixs))) [
          | none ↦ none
          | some (r, svm') ↦ some (r, commit_success r svm')
        ]

  unfoldable pub simulate_instruction_with_store :
      HopperSvm → Instruction → Option (HopperExecutionResult × HopperSvm)
  simulate_instruction_with_store svm ix = elim (process_instruction_with_store svm ix) [
    | none ↦ none
    | some (r, svm') ↦ some (r, restore_accounts svm' (snapshot_accounts svm))
  ]

  unfoldable pub simulate_instruction_chain_with_store :
      HopperSvm → List Instruction → Option (HopperExecutionResult × HopperSvm)
  simulate_instruction_chain_with_store svm ixs =
      elim (process_instruction_chain_with_store svm ixs) [
        | none ↦ none
        | some (r, svm') ↦ some (r, restore_accounts svm' (snapshot_accounts svm))
      ]
