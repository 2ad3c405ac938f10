-- ===== src/Aggregation/Public.antt =====
-- What a segment proof exposes of its segment, and how two boundaries chain: PublicData of
-- crates/prover/src/public_data.rs and Boundary of crates/prover/src/recursion/aggregate.rs.
use stark_v.Base.{ℕ, List, [], ◌∷◌, Bool, true, false, ◌&&◌, ◌==◌, if◌then◌else◌, not, Option}
use stark_v.Base.{none, some, Result}

pub record OutputWord : Type 0 where
  pub addr : ℕ
  pub value : ℕ
  pub clock : ℕ

pub record IoEntries : Type 0 where
  pub input_start : ℕ
  pub input_len : ℕ
  pub input_words : List ℕ
  pub output_len : ℕ
  pub output_len_addr : ℕ
  pub output_data_addr : ℕ
  pub output_words : List OutputWord

pub record PublicData : Type 0 where
  pub initial_pc : ℕ
  pub final_pc : ℕ
  pub clock : ℕ
  pub initial_regs : List ℕ
  pub final_regs : List ℕ
  pub reg_last_clock : List ℕ
  pub program_root : Option ℕ
  pub initial_rw_root : Option ℕ
  pub final_rw_root : Option ℕ
  pub io_entries : IoEntries

pub record Boundary : Type 0 where
  pub entry_pc : ℕ
  pub exit_pc : ℕ
  pub entry_regs : List ℕ
  pub exit_regs : List ℕ
  pub entry_rw_root : Option ℕ
  pub exit_rw_root : Option ℕ
  pub program_root : Option ℕ

-- The text of a mismatch: what differs.
pub data Mismatch : Type 0 where
  pc : Mismatch
  regs : Mismatch
  rw_root : Mismatch
  program_root : Mismatch

-- `==` of register files.
unfoldable pub regs_eq : List ℕ → List ℕ → Bool
regs_eq [] [] = true
regs_eq [] (y ∷ ys) = false
regs_eq (x ∷ xs) [] = false
regs_eq (x ∷ xs) (y ∷ ys) = x == y && regs_eq xs ys

-- `==` of roots.
unfoldable pub root_eq : Option ℕ → Option ℕ → Bool
root_eq none none = true
root_eq none (some b) = false
root_eq (some a) none = false
root_eq (some a) (some b) = a == b

unfoldable pub of_segment : PublicData → Boundary
of_segment public_data = record {
  entry_pc = public_data.initial_pc;
  exit_pc = public_data.final_pc;
  entry_regs = public_data.initial_regs;
  exit_regs = public_data.final_regs;
  entry_rw_root = public_data.initial_rw_root;
  exit_rw_root = public_data.final_rw_root;
  program_root = public_data.program_root;
}

unfoldable pub chain : Boundary → Boundary → Result Mismatch Boundary
chain left right =
    if not (left.exit_pc == right.entry_pc)
    then Result.err Mismatch.pc
    else if not (regs_eq left.exit_regs right.entry_regs)
    then Result.err Mismatch.regs
    else if not (root_eq left.exit_rw_root right.entry_rw_root)
    then Result.err Mismatch.rw_root
    else if not (root_eq left.program_root right.program_root)
    then Result.err Mismatch.program_root
    else Result.ok (record {
      entry_pc = left.entry_pc;
      exit_pc = right.exit_pc;
      entry_regs = left.entry_regs;
      exit_regs = right.exit_regs;
      entry_rw_root = left.entry_rw_root;
      exit_rw_root = right.exit_rw_root;
      program_root = left.program_root;
    })
