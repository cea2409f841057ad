-- ===== src/Validation.antt =====
-- src/validation.rs: the checks on the accounts behind each successful instruction.
pub mod Rules
pub mod Creation
use hopper_svm.Prelude.{
  ℕ, ◌+◌, ◌-◌, ◌^◌, min, Bool, true, false, not, ◌&&◌, ◌||◌, Option, none, some, String, List, [],
  ◌∷◌, ◌++◌, ◌==◌, ltb, contains, bytes_eq, is_empty, if◌then◌else◌,
}
use hopper_svm.Error.{
  Pubkey, Result, ok, err, panic, account_validation_failed, ◌>>=◌, ◌>>◌, require,
}
use hopper_svm.Account.{KeyedAccount, AccountMeta, find_account}
use hopper_svm.Sdk.{Sdk}

pub data ValidationPolicy : Type 0 where
  strict lax : ValidationPolicy

abbrev pub u128_max : ℕ
u128_max = 2 ^ 128 - 1

abbrev pub bool_eq : Bool → Bool → Bool
bool_eq true b = b
bool_eq false b = not b

-- The variables of the loop over the metas.
pub record Tally : Type 0 where
  pub seen : List Pubkey
  pub sum_pre : ℕ
  pub sum_post : ℕ

abbrev pub same_state : KeyedAccount → KeyedAccount → Bool
same_state p n =
    p.lamports == n.lamports
    && bytes_eq p.bytes n.bytes
    && p.owner == n.owner
    && bool_eq p.executable n.executable

module _ (sdk : Sdk) where
  -- `was_empty_system_owned`, and `is_creation`, which is the same test
  abbrev pub was_empty_system_owned : KeyedAccount → Bool
  was_empty_system_owned p = p.lamports == 0 && is_empty p.bytes && p.owner == sdk.system_id

  module _ (program_id : Pubkey) where
    -- The rules on one account, in the order 1, 5, 6, 4, 3.
    unfoldable pub check_account : AccountMeta → KeyedAccount → KeyedAccount → Result (Unit {0})
    check_account m p n =
        if not m.is_writable
        then require (same_state p n)
            (account_validation_failed m.pubkey "read-only account modified")
        else do
          require (bool_eq p.executable n.executable)
              (account_validation_failed m.pubkey "executable flag toggled ({} -> {})")
          require (not (ltb n.lamports p.lamports && not (p.owner == program_id))) (
              account_validation_failed m.pubkey
                "lamports debited by non-owner program (pre.owner={}, program_id={}, debit={})")
          require
              (p.owner == n.owner
                || p.owner == program_id
                || (was_empty_system_owned p && program_id == sdk.system_id))
              (account_validation_failed m.pubkey
                "owner reassigned by non-owner program (pre.owner={}, program_id={})")
          require (bytes_eq p.bytes n.bytes || p.owner == program_id || was_empty_system_owned p) (
              account_validation_failed m.pubkey
                "data mutated by non-owner program (pre.owner={}, program_id={})")

    module _ (pre post : List KeyedAccount) where
      -- One round of the loop on a key that was not seen before.
      unfoldable pub check_fresh : AccountMeta → Tally → Result Tally
      check_fresh m t = elim (find_account m.pubkey pre) [
        | none ↦ ok (record t { seen = t.seen ++ m.pubkey ∷ [] })
        | some p ↦ elim (find_account m.pubkey post) [
          | none ↦ ok (record t { seen = t.seen ++ m.pubkey ∷ [] })
          | some n ↦
              check_account m p n
              >> ok (record {
                seen = t.seen ++ m.pubkey ∷ [];
                sum_pre = min (t.sum_pre + p.lamports) u128_max;
                sum_post = min (t.sum_post + n.lamports) u128_max;
              })
        ]
      ]

      unfoldable pub check_meta : AccountMeta → Tally → Result Tally
      check_meta m t = if contains t.seen m.pubkey then ok t else check_fresh m t

      unfoldable pub check_metas : List AccountMeta → Tally → Result Tally
      check_metas [] t = ok t
      check_metas (m ∷ ms) t = check_meta m t >>= check_metas ms

  -- `creation_credit`: the sum over the pairs of `pre.iter().zip(post.iter())`.
  unfoldable pub creation_credit : List KeyedAccount → List KeyedAccount → ℕ
  creation_credit [] post = 0
  creation_credit (p ∷ pre) [] = 0
  creation_credit (p ∷ pre) (n ∷ post) =
      (if was_empty_system_owned p
          && (not (p.owner == n.owner) || (is_empty p.bytes && not (is_empty n.bytes)))
        then n.lamports
        else 0)
      + creation_credit pre post

  abbrev pub start : Tally
  start = record { seen = []; sum_pre = 0; sum_post = 0 }

  -- Rule 2, behind the loop.
  unfoldable pub check_conservation :
      List KeyedAccount → List KeyedAccount → Tally → Result (Unit {0})
  check_conservation pre post t =
      require (min (t.sum_pre + creation_credit pre post) u128_max == t.sum_post) (
        account_validation_failed sdk.default_key
          "lamport conservation broken (pre={sum_pre}+{creation_credit}, post={sum_post}, delta={})")

  unfoldable pub validate_post_state :
      Pubkey
      → List AccountMeta
      → List KeyedAccount
      → List KeyedAccount
      → ValidationPolicy
      → Result (Unit {0})
  validate_post_state program_id metas pre post lax = ok tt
  validate_post_state program_id metas pre post strict =
      check_metas program_id pre post metas start >>= check_conservation pre post
