-- ===== src/Alt/Steps.antt =====
-- src/spl/alt_program.rs: every instruction of the program on a table.
use hopper_svm.Prelude.{ℕ, ◌≡◌, some, String, List, [], ◌∷◌, ◌==◌, leb, arith, length, drop}
use hopper_svm.Bytes.Layout.{word}
use hopper_svm.Error.{ok, require-eq-ok, if-eq-ok}
use hopper_svm.Account.{KeyedAccount}
use hopper_svm.Sdk.{Sdk}
use hopper_svm.Builtin.{InvokeContext}
use hopper_svm.Alt.Table.{LookupTableMeta, read_table}
use hopper_svm.Alt.Handlers.{
  create_lookup_table, freeze_lookup_table, extend_lookup_table, deactivate_lookup_table,
  close_lookup_table,
}
use hopper_svm.Alt.{alt_dispatch, alt_handle}
use hopper_svm.Alt.Moves.{Moved, freeze-Moved, deactivate-Moved, close-Moved, extend-Moved}

module _ (sdk : Sdk) (ctx : InvokeContext) (a : KeyedAccount) (m : LookupTableMeta)
    (reads : read_table a.bytes ≡ some m) where
  create-fails :
      (body : List ℕ) (rest after : List KeyedAccount) (message : String)
      → create_lookup_table sdk body (a ∷ rest) ctx ≡ ok (after, message)
      → Moved sdk ctx a m after
  unfolding create_lookup_table read_table
  create-fails body [] after message h = absurd (ground arith)
  create-fails body (b ∷ []) after message h = absurd (ground arith)
  create-fails body (b ∷ c ∷ []) after message h = absurd (ground arith)
  create-fails body (b ∷ c ∷ d ∷ rest) after message h = absurd (ground (arith, reads))

  freeze-short :
      (rest after : List KeyedAccount) (message : String)
      → freeze_lookup_table (a ∷ rest) ctx ≡ ok (after, message)
      → Moved sdk ctx a m after
  unfolding freeze_lookup_table
  freeze-short [] after message h = absurd (ground arith)
  freeze-short (b ∷ rest) after message h = freeze-Moved sdk ctx a m reads b rest after message h

  deactivate-short :
      (rest after : List KeyedAccount) (message : String)
      → deactivate_lookup_table (a ∷ rest) ctx ≡ ok (after, message)
      → Moved sdk ctx a m after
  unfolding deactivate_lookup_table
  deactivate-short [] after message h = absurd (ground arith)
  deactivate-short (b ∷ rest) after message h =
      deactivate-Moved sdk ctx a m reads b rest after message h

  close-short :
      (rest after : List KeyedAccount) (message : String)
      → close_lookup_table sdk (a ∷ rest) ctx ≡ ok (after, message)
      → Moved sdk ctx a m after
  unfolding close_lookup_table
  close-short [] after message h = absurd (ground arith)
  close-short (b ∷ []) after message h = absurd (ground arith)
  close-short (b ∷ c ∷ rest) after message h =
      close-Moved sdk ctx a m reads b c rest after message h

  extend-short :
      (body : List ℕ) (rest after : List KeyedAccount) (message : String)
      → extend_lookup_table body (a ∷ rest) ctx ≡ ok (after, message)
      → Moved sdk ctx a m after
  unfolding extend_lookup_table
  extend-short body [] after message h = absurd (ground arith)
  extend-short body (b ∷ []) after message h = absurd (ground arith)
  extend-short body (b ∷ c ∷ []) after message h = absurd (ground arith)
  extend-short body (b ∷ c ∷ d ∷ rest) after message h =
      extend-Moved sdk ctx a m reads body b c d rest after message h

  alt_dispatch-Moved :
      (tag : ℕ) (body : List ℕ) (rest after : List KeyedAccount) (message : String)
      → alt_dispatch sdk tag body (a ∷ rest) ctx ≡ ok (after, message)
      → Moved sdk ctx a m after
  unfolding alt_dispatch
  alt_dispatch-Moved tag body rest after message h =
      if-eq-ok (tag == 0) _ _ (λ e. create-fails body rest after message e)
        (λ h1.
          if-eq-ok (tag == 1) _ _ (λ e. freeze-short rest after message e)
            (λ h2.
              if-eq-ok (tag == 2) _ _ (λ e. extend-short body rest after message e)
                (λ h3.
                  if-eq-ok (tag == 3) _ _ (λ e. deactivate-short rest after message e)
                    (λ h4.
                      if-eq-ok (tag == 4) _ _ (λ e. close-short rest after message e) (λ e. cc) h4)
                    h3)
                h2)
            h1)
        h

  -- A success of the program with a table in the first slot: the authority of the table, which
  -- therefore is not frozen, has signed, and the table is frozen, extended at its end, deactivated, or
  -- closed; it was active if it is extended or deactivated, and cooled down if it is closed.
  pub alt_handle-Moved :
      (bytes : List ℕ) (rest after : List KeyedAccount) (message : String)
      → alt_handle sdk bytes (a ∷ rest) ctx ≡ ok (after, message)
      → Moved sdk ctx a m after
  unfolding alt_handle
  alt_handle-Moved bytes rest after message h =
      let (long, ran) = require-eq-ok (leb 4 (length bytes)) _ _ h in
      alt_dispatch-Moved (word 0 4 bytes) (drop 4 bytes) rest after message ran
