-- ===== src/Log.antt =====
-- src/log.rs: the transcript of an execution. A line is kept as data: which of the runtime's line
-- forms it is, and the values in it.
use hopper_svm.Prelude.{ℕ, ◌+◌, ◌-◌, String, List, [], ◌∷◌, ◌++◌}
use hopper_svm.Error.{Pubkey, HopperSvmError}

pub data LogLine : Type 0 where
  program_log : String → LogLine
  -- program, depth
  invoked : Pubkey → ℕ → LogLine
  -- program, consumed, budget
  used : Pubkey → ℕ → ℕ → LogLine
  succeeded : Pubkey → LogLine
  failed : Pubkey → HopperSvmError → LogLine
  blank : LogLine
  -- `# ix[i] @ program`
  chained : ℕ → Pubkey → LogLine
  validation_failed : HopperSvmError → LogLine
  -- fee, payer, signers, CU limit, micro-lamports
  charged : ℕ → Pubkey → ℕ → ℕ → ℕ → LogLine

pub record LogCapture : Type 0 where
  pub lines : List LogLine
  pub depth : ℕ

abbrev pub empty : LogCapture
empty = record { lines = []; depth = 0 }

unfoldable pub line : LogCapture → LogLine → LogCapture
line l s = record l { lines = l.lines ++ s ∷ [] }

unfoldable pub log_text : LogCapture → String → LogCapture
log_text l s = record l { lines = l.lines ++ program_log s ∷ [] }

unfoldable pub invoke : LogCapture → Pubkey → LogCapture
invoke l id = record { lines = l.lines ++ invoked id (l.depth + 1) ∷ []; depth = l.depth + 1 }

unfoldable pub success : LogCapture → Pubkey → ℕ → ℕ → LogCapture
success l id consumed budget = record {
  lines = l.lines ++ used id consumed budget ∷ succeeded id ∷ [];
  depth = l.depth - 1;
}

unfoldable pub failure : LogCapture → Pubkey → ℕ → ℕ → HopperSvmError → LogCapture
failure l id consumed budget e = record {
  lines = l.lines ++ used id consumed budget ∷ failed id e ∷ [];
  depth = l.depth - 1;
}

abbrev divider : List LogLine → List LogLine
divider [] = []
divider (x ∷ xs) = blank ∷ []

unfoldable pub section : LogCapture → ℕ → Pubkey → LogCapture
section l i id = record l { lines = l.lines ++ divider l.lines ++ chained i id ∷ [] }
