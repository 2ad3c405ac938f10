-- ===== src/Tests/Hashing.antt =====
-- The hashes, the Merkle trees and the lookup tables at concrete inputs.
use stark_v.Base.{
  ℕ, ◌+◌, ◌*◌, ◌%◌, ◌^◌, ◌<◌, ◌≡◌, ◌⊎◌, refl, arith, List, [], ◌∷◌, All, length, get_or, replicate,
  true, false, Dict, Result,
}
use stark_v.Ops.Utils.{m31_p}
use stark_v.Memory.{Memory}
use stark_v.Trace
use stark_v.Program.{CommitmentError}
use stark_v.Poseidon2.{
  M31, poseidon2_permutation, apply_external_round_matrix, apply_internal_round_matrix, add_m31,
  apply_m4, mul_m31, square_m31, poseidon2_traced_state, poseidon2_traced,
}
use stark_v.Poseidon2.Arith.{all_below-All}
use stark_v.Poseidon2.Matrix.{matrix_permutation}
use stark_v.Poseidon2.Hash.{traced-permutation, traced-default_hashes}
use stark_v.Commitment.{
  MerkleValue, MemoryLayout, Commitments, single, build_partial_merkle_tree, leaf_depth,
  finalize_commitments_with_role,
}
use stark_v.Commitment.Root.{tree_value, IsNode, HasWords-of, build_partial_merkle_tree-IsTree}
use stark_v.Commitment.Errors.{IsCode, FailsAt, addrs_from, finalize-Decides}
use stark_v.Preprocessed.Ranges.{
  index_20, gen_columns_20, index_8_8, gen_columns_8_8, index_8_11, gen_columns_8_11, index_8_8_4,
  gen_columns_8_8_4, index_m31, gen_columns_m31,
}
use stark_v.Preprocessed.Bitwise.{BitwiseRow, index, gen_columns}
use stark_v.Preprocessed.Complete.{gen_columns-index, gen_columns_m31-IsM31, gen_columns-bitwise}

-- The field as remainders.
abbrev pub remainders : M31
remainders = record {
  reduce = λ x. x % m31_p;
  add = λ a b. (a + b) % m31_p;
  mul = λ a b. a * b % m31_p;
  reduce_mod = λ x h. refl;
  add_mod = λ a b h k. refl;
  mul_mod = λ a b h k. refl;
}

abbrev zeros : List ℕ
zeros = replicate 16 0

hash_of_zeros : get_or (poseidon2_permutation remainders zeros) 0 0 ≡ 1183174448
unfolding poseidon2_permutation apply_external_round_matrix apply_internal_round_matrix add_m31
    apply_m4 mul_m31 square_m31
hash_of_zeros = refl

abbrev counting : List ℕ
counting =
    123456789 ∷ 123456790 ∷ 123456791 ∷ 123456792 ∷ 123456793 ∷ 123456794 ∷ 123456795 ∷ 4294967295
    ∷ 123456797 ∷ 123456798 ∷ 123456799 ∷ 123456800 ∷ 123456801 ∷ 123456802 ∷ 123456803 ∷ 2147483647
    ∷ []

traced-permutation_example :
    ((poseidon2_traced_state remainders [] counting false true).0
      ≡ poseidon2_permutation remainders counting)
    × (poseidon2_permutation remainders counting ≡ matrix_permutation counting)
    × (length (poseidon2_permutation remainders counting) ≡ 16)
    × All (λ x. x < m31_p) (poseidon2_permutation remainders counting)
traced-permutation_example =
    traced-permutation remainders [] counting false true refl (all_below-All (2 ^ 32) counting refl)

traced-default_hashes_example : get_or (poseidon2_traced remainders [] 0 0).0 0 0 ≡ 1183174448
traced-default_hashes_example = traced-default_hashes remainders [] 29 (omega arith)

-- Two neighbours and a lonely leaf.
abbrev three_leaves : Dict MerkleValue
three_leaves =
    (0x1000, record { value = 7; multiplicity = 1 })
    ∷ (0x1001, record { value = 255; multiplicity = 1 })
    ∷ (0x3fffffff, record { value = 1; multiplicity = 1 })
    ∷ []

build_partial_merkle_tree-IsTree_example :
    let (nodes, root, _) = build_partial_merkle_tree remainders three_leaves [] in
    (root ≡ tree_value three_leaves leaf_depth 0) × All (IsNode three_leaves) nodes
build_partial_merkle_tree-IsTree_example =
    build_partial_merkle_tree-IsTree remainders three_leaves []
      (HasWords-of three_leaves (omega arith, (omega arith, (omega arith, tt))))
      (omega arith, (omega arith, (omega arith, tt)))

abbrev layout : MemoryLayout
layout = record {
  program_base = 0x1000;
  program_end = 0x100a;
  data_base = 0x3000;
  data_end = 0x4000;
  stack_bottom = 0x5000;
  stack_top = 0x6000;
  io_base = 0x7000;
  io_end = 0x8000;
  input_base = 0x7000;
  input_end = 0x7000;
  output_len_addr = 0x7000;
  output_data_addr = 0x7004;
  output_base = 0x7000;
  output_end = 0x7000;
}

-- `addi x1, x0, 5`, a word of zeros, and a word that is no instruction.
abbrev code : Memory
code = record {
  bytes =
      (0x1000, 0x93)
      ∷ (0x1001, 0)
      ∷ (0x1002, 0x50)
      ∷ (0x1003, 0)
      ∷ (0x1008, 0xff)
      ∷ (0x1009, 0xff)
      ∷ (0x100a, 0xff)
      ∷ (0x100b, 0xff)
      ∷ [];
}

finalize-Decides_example :
    let addrs = addrs_from 3 0x1000 in
    let result = finalize_commitments_with_role remainders Trace.default code layout single in
    ((filled : Commitments) × (result ≡ Result.ok filled) × All (IsCode code) addrs)
    ⊎ ((e : CommitmentError) × (result ≡ Result.err e) × FailsAt code addrs e)
finalize-Decides_example = finalize-Decides remainders Trace.default code layout single

gen_columns-index_example :
    (gen_columns_20 (index_20 1048575) ≡ 1048575)
    × (gen_columns_8_8 (index_8_8 (255, 3)) ≡ (255, 3))
    × (gen_columns_8_11 (index_8_11 (255, 2047)) ≡ (255, 2047))
    × (gen_columns_8_8_4 (index_8_8_4 (255, 3, 15)) ≡ (255, 3, 15))
gen_columns-index_example =
    gen_columns-index 1048575 255 3 2047 15 (omega arith) (omega arith) (omega arith) (omega arith)
      (omega arith)

gen_columns_m31-IsM31_example :
    let (lowest, highest) = gen_columns_m31 32767 in
    (lowest + 255 * 2 ^ 8 + 255 * 2 ^ 16 + highest * 2 ^ 24 < m31_p)
    × (gen_columns_m31 (index_m31 (254, 127)) ≡ (254, 127))
gen_columns_m31-IsM31_example =
    gen_columns_m31-IsM31 32767 255 255 254 127 (omega arith) (omega arith) (omega arith)
      (omega arith) (omega arith) (omega arith)

-- A row of the bytes 0xf0 and 0x3c.
abbrev bits_row : ℕ → ℕ → BitwiseRow
bits_row result id = record { limb_0 = 0xf0; limb_1 = 0x3c; result = result; bitwise_id = id }

gen_columns-bitwise_example :
    (gen_columns (index (bits_row 0x30 0)) ≡ bits_row 0x30 0)
    × (gen_columns (index (bits_row 0xfc 1)) ≡ bits_row 0xfc 1)
    × (gen_columns (index (bits_row 0xcc 2)) ≡ bits_row 0xcc 2)
    × (gen_columns (index (bits_row 0 3)) ≡ bits_row 0 3)
gen_columns-bitwise_example = gen_columns-bitwise 0xf0 0x3c (omega arith) (omega arith)
