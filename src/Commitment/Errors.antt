-- ===== src/Commitment/Errors.antt =====
-- When closing a segment fails.
use stark_v.Base.{
  ℕ, zero, suc, ◌+◌, ◌-◌, ◌/◌, ◌≡◌, ◌≢◌, refl, ap, arith, ◌⊎◌, inl, inr, Bool-cases, Option-cases,
  none, some, List, [], ◌∷◌, ◌++◌, All, Result, ◌==◌, ==_iff,
}
use stark_v.Memory.{Memory, read_u32}
use stark_v.Decode.{DecodedInst, decode}
use stark_v.Trace.{Tracer}
use stark_v.Program.{
  CommitmentError, ProgramRow, decode_words, decode_program, decode_program_word, limbs_of,
  limbs_values,
}
use stark_v.Poseidon2.{M31}
use stark_v.Commitment.{
  MemoryLayout, SegmentRole, Commitments, commit, finalize_commitments_with_role,
}

-- The addresses of `n` words from `addr` on.
abbrev pub addrs_from : ℕ → ℕ → List ℕ
addrs_from zero addr = []
addrs_from (suc n) addr = addr ∷ addrs_from n (addr + 4)

-- A word of the program is 0 or an instruction.
abbrev pub IsCode : Memory → ℕ → Type 0
IsCode mem addr =
    (read_u32 mem addr ≡ 0) ⊎ ((inst : DecodedInst) × (decode (read_u32 mem addr) ≡ some inst))

-- The first of some words that is neither.
pub record FailsAt (mem : Memory) (addrs : List ℕ) (e : CommitmentError) : Type 0 where
  pub before : List ℕ
  pub pc : ℕ
  pub after : List ℕ
  pub splits : addrs ≡ before ++ pc ∷ after
  pub code_before : All (IsCode mem) before
  pub not_zero : read_u32 mem pc ≢ 0
  pub not_code : decode (read_u32 mem pc) ≡ none
  pub error_is : e ≡ CommitmentError.decode_failure pc (read_u32 mem pc)

-- What a program does to the decoding of its words.
abbrev Decides : Memory → List ℕ → Result CommitmentError (List ProgramRow) → Type 0
Decides mem addrs result =
    ((rows : List ProgramRow) × (result ≡ Result.ok rows) × All (IsCode mem) addrs)
    ⊎ ((e : CommitmentError) × (result ≡ Result.err e) × FailsAt mem addrs e)

later :
    (mem : Memory) (addr : ℕ) (addrs : List ℕ) (e : CommitmentError)
    → IsCode mem addr
    → FailsAt mem addrs e
    → FailsAt mem (addr ∷ addrs) e
later mem addr addrs e here h = record {
  before = addr ∷ h.before;
  pc = h.pc;
  after = h.after;
  splits = ap (λ xs. addr ∷ xs) h.splits;
  code_before = (here, h.code_before);
  not_zero = h.not_zero;
  not_code = h.not_code;
  error_is = h.error_is;
}

decode_words-Decides :
    (n : ℕ) (mem : Memory) (addr : ℕ) → Decides mem (addrs_from n addr) (decode_words n mem addr)
unfolding decode_words decode_program_word
decode_words-Decides zero mem addr = inl ([], refl, tt)
decode_words-Decides (suc n) mem addr =
    let word = read_u32 mem addr in
    elim (Bool-cases (word == 0)) [
      | inl z ↦ elim (decode_words-Decides n mem (addr + 4)) [
        | inl (rows, found, all) ↦ inl (rows, rw (z, found) refl, (inl ((==_iff word 0).0 z), all))
        | inr (e, found, fails) ↦ inr (
          e,
          rw (z, found) refl,
          later mem addr (addrs_from n (addr + 4)) e (inl ((==_iff word 0).0 z)) fails,
        )
      ]
      | inr nz ↦ elim (Option-cases (decode word)) [
        | inl missing ↦ inr (
          CommitmentError.decode_failure addr word,
          rw (nz, missing, decode_program_word) refl,
          record {
            before = [];
            pc = addr;
            after = addrs_from n (addr + 4);
            splits = refl;
            code_before = tt;
            not_zero = ground arith;
            not_code = missing;
            error_is = refl;
          },
        )
        | inr (inst, is) ↦ elim (decode_words-Decides n mem (addr + 4)) [
          | inl (rows, found, all) ↦ inl (
            record { addr = addr; values = limbs_values (limbs_of inst.opcode) inst word } ∷ rows,
            rw (nz, is, found, decode_program_word) refl,
            (inr (inst, is), all),
          )
          | inr (e, found, fails) ↦ inr (
            e,
            rw (nz, is, found, decode_program_word) refl,
            later mem addr (addrs_from n (addr + 4)) e (inr (inst, is)) fails,
          )
        ]
      ]
    ]

-- Closing a segment either fills the tables, and then every word between the bounds of the program is 0
-- or an instruction, or it fails with the address and the contents of the first word that is neither,
-- whatever the tracer and the segment's place in the run.
pub finalize-Decides :
    (f : M31) (tracer : Tracer) (memory : Memory) (layout : MemoryLayout) (role : SegmentRole)
    → let addrs =
        addrs_from ((layout.program_end - layout.program_base + 3) / 4) layout.program_base in
      let result = finalize_commitments_with_role f tracer memory layout role in
      ((filled : Commitments) × (result ≡ Result.ok filled) × All (IsCode memory) addrs)
      ⊎ ((e : CommitmentError) × (result ≡ Result.err e) × FailsAt memory addrs e)
unfolding finalize_commitments_with_role decode_program
finalize-Decides f tracer memory layout role =
    elim (decode_words-Decides ((layout.program_end - layout.program_base + 3) / 4) memory
      layout.program_base) [
        | inl (rows, found, all) ↦ inl (commit f tracer memory layout role rows, rw found refl, all)
        | inr (e, found, fails) ↦ inr (e, rw found refl, fails)
      ]
