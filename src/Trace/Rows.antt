-- ===== src/Trace/Rows.antt =====
-- The rows of the opcode tables, the `committed` columns of crates/air/src/schema.rs. Numbered
-- columns such as `diff_marker_0` to `diff_marker_3` are one list; a row of an opcode table begins
-- with the clock and the pc.
use stark_v.Base.{ℕ, List}

-- One traced read or write of a register or of a memory word: crates/air/src/trace.rs.
pub record Access : Type 0 where
  pub addr : ℕ
  pub prev : ℕ
  pub clock_prev : ℕ
  pub next : ℕ

pub record BaseAluRegRow : Type 0 where
  pub clock : ℕ
  pub pc : ℕ
  pub rd : Access
  pub rs1 : Access
  pub rs2 : Access
  pub opcode_add_flag : ℕ
  pub opcode_sub_flag : ℕ
  pub opcode_xor_flag : ℕ
  pub opcode_or_flag : ℕ
  pub opcode_and_flag : ℕ

pub record BaseAluImmRow : Type 0 where
  pub clock : ℕ
  pub pc : ℕ
  pub rd : Access
  pub rs1 : Access
  pub imm_0 : ℕ
  pub imm_1 : ℕ
  pub imm_msb : ℕ
  pub opcode_add_flag : ℕ
  pub opcode_xor_flag : ℕ
  pub opcode_or_flag : ℕ
  pub opcode_and_flag : ℕ

pub record ShiftsRegRow : Type 0 where
  pub clock : ℕ
  pub pc : ℕ
  pub rd : Access
  pub rs1 : Access
  pub rs2 : Access
  pub rs1_sign : ℕ
  pub opcode_sll_flag : ℕ
  pub opcode_srl_flag : ℕ
  pub opcode_sra_flag : ℕ
  pub bit_multiplier_left : ℕ
  pub bit_multiplier_right : ℕ
  pub bit_shift_marker : List ℕ
  pub limb_shift_marker : List ℕ
  pub bit_shift_carry : List ℕ

pub record ShiftsImmRow : Type 0 where
  pub clock : ℕ
  pub pc : ℕ
  pub rd : Access
  pub rs1 : Access
  pub rs1_sign : ℕ
  pub imm_truncated : ℕ
  pub opcode_sll_flag : ℕ
  pub opcode_srl_flag : ℕ
  pub opcode_sra_flag : ℕ
  pub bit_multiplier_left : ℕ
  pub bit_multiplier_right : ℕ
  pub bit_shift_marker : List ℕ
  pub limb_shift_marker : List ℕ
  pub bit_shift_carry : List ℕ

pub record LtRegRow : Type 0 where
  pub clock : ℕ
  pub pc : ℕ
  pub rd : Access
  pub rs1 : Access
  pub rs2 : Access
  pub cmp_result : ℕ
  pub rs1_msl_felt : ℕ
  pub rs2_msl_felt : ℕ
  pub opcode_slt_flag : ℕ
  pub opcode_sltu_flag : ℕ
  pub diff_val : ℕ
  pub diff_marker : List ℕ

pub record LtImmRow : Type 0 where
  pub clock : ℕ
  pub pc : ℕ
  pub rd : Access
  pub rs1 : Access
  pub cmp_result : ℕ
  pub rs1_msl_felt : ℕ
  pub imm_0 : ℕ
  pub imm_1 : ℕ
  pub imm_msb : ℕ
  pub opcode_slti_flag : ℕ
  pub opcode_sltiu_flag : ℕ
  pub diff_val : ℕ
  pub diff_marker : List ℕ

pub record BranchEqRow : Type 0 where
  pub clock : ℕ
  pub pc : ℕ
  pub rs1 : Access
  pub rs2 : Access
  pub imm_felt : ℕ
  pub cmp_result : ℕ
  pub opcode_beq_flag : ℕ
  pub opcode_bne_flag : ℕ
  pub diff_inv_marker : List ℕ

pub record BranchLtRow : Type 0 where
  pub clock : ℕ
  pub pc : ℕ
  pub rs1 : Access
  pub rs2 : Access
  pub rs1_msl_felt : ℕ
  pub rs2_msl_felt : ℕ
  pub imm_felt : ℕ
  pub cmp_result : ℕ
  pub cmp_lt : ℕ
  pub diff_val : ℕ
  pub branch_target : ℕ
  pub opcode_blt_flag : ℕ
  pub opcode_bltu_flag : ℕ
  pub opcode_bge_flag : ℕ
  pub opcode_bgeu_flag : ℕ
  pub diff_marker : List ℕ

pub record LuiRow : Type 0 where
  pub clock : ℕ
  pub pc : ℕ
  pub rd : Access
  pub imm_0 : ℕ
  pub imm_1 : ℕ
  pub imm_2 : ℕ

pub record AuipcRow : Type 0 where
  pub clock : ℕ
  pub pc : ℕ
  pub rd : Access
  pub imm_felt : ℕ

pub record JalrRow : Type 0 where
  pub clock : ℕ
  pub pc : ℕ
  pub rd : Access
  pub rs1 : Access
  pub to_pc_over_two : ℕ
  pub to_pc_lsb : ℕ
  pub imm_felt : ℕ

pub record JalRow : Type 0 where
  pub clock : ℕ
  pub pc : ℕ
  pub rd : Access
  pub imm_felt : ℕ

pub record LoadStoreRow : Type 0 where
  pub clock : ℕ
  pub pc : ℕ
  pub dst : Access
  pub rs1 : Access
  pub src : Access
  pub r2_idx : ℕ
  pub imm_felt : ℕ
  pub src_msb : ℕ
  pub shift_amount : ℕ
  pub src_addr_selector : ℕ
  pub dst_addr_selector : ℕ
  pub opcode_lb_flag : ℕ
  pub opcode_lh_flag : ℕ
  pub opcode_lbu_flag : ℕ
  pub opcode_lhu_flag : ℕ
  pub opcode_lw_flag : ℕ
  pub opcode_sb_flag : ℕ
  pub opcode_sh_flag : ℕ
  pub opcode_sw_flag : ℕ
  pub marker : List ℕ

pub record MulRow : Type 0 where
  pub clock : ℕ
  pub pc : ℕ
  pub rd : Access
  pub rs1 : Access
  pub rs2 : Access

pub record MulhRow : Type 0 where
  pub clock : ℕ
  pub pc : ℕ
  pub rd : Access
  pub rs1 : Access
  pub rs2 : Access
  pub rs1_sign : ℕ
  pub rs2_sign : ℕ
  pub opcode_mulh_flag : ℕ
  pub opcode_mulhsu_flag : ℕ
  pub opcode_mulhu_flag : ℕ
  pub rd_high : List ℕ

pub record DivRow : Type 0 where
  pub clock : ℕ
  pub pc : ℕ
  pub rd : Access
  pub rs1 : Access
  pub rs2 : Access
  pub zero_divisor : ℕ
  pub r_zero : ℕ
  pub b_sign : ℕ
  pub c_sign : ℕ
  pub q_sign : ℕ
  pub sign_xor : ℕ
  pub c_sum_inv : ℕ
  pub r_sum_inv : ℕ
  pub lt_diff : ℕ
  pub opcode_div_flag : ℕ
  pub opcode_divu_flag : ℕ
  pub opcode_rem_flag : ℕ
  pub opcode_remu_flag : ℕ
  pub q : List ℕ
  pub r : List ℕ
  pub r_abs : List ℕ
  pub r_inv : List ℕ
  pub lt_marker : List ℕ

pub data TraceRow : Type 0 where
  base_alu_reg : BaseAluRegRow → TraceRow
  base_alu_imm : BaseAluImmRow → TraceRow
  shifts_reg : ShiftsRegRow → TraceRow
  shifts_imm : ShiftsImmRow → TraceRow
  lt_reg : LtRegRow → TraceRow
  lt_imm : LtImmRow → TraceRow
  branch_eq : BranchEqRow → TraceRow
  branch_lt : BranchLtRow → TraceRow
  lui : LuiRow → TraceRow
  auipc : AuipcRow → TraceRow
  jalr : JalrRow → TraceRow
  jal : JalRow → TraceRow
  load_store : LoadStoreRow → TraceRow
  mul : MulRow → TraceRow
  mulh : MulhRow → TraceRow
  div : DivRow → TraceRow
