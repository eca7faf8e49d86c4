-- ===== src/Riscv/Rtl/Decode/Kinds.antt =====
-- What the decoder says of an instruction, from its opcode alone.
use verilog.Common.{
  ℕ, ◌/◌, ◌%◌, ◌^◌, ◌≡◌, ◌≢◌, Bool, true, false, arith, ◌||◌, refl, ap, ◌∙◌, truth,
}
use verilog.Riscv.Isa.{
  opcode_s_type, opcode_b_type, opcode_u_type_lui, opcode_u_type_auipc, opcode_u_type_jal,
  opcode_r_type, opcode_rtype_32, opcode_i_type_alu, opcode_itype_imm_32, opcode_i_type_load,
  opcode_i_type_jalr, opcode_system,
}
use verilog.Riscv.Rtl.Decode.{
  Kind, no_kind, decode, kind, funct3_of, immediate_of, slice, imm_i, imm_s, imm_b, imm_u, imm_j,
}

-- A 32-bit instruction ends in 11, and has `funct3` at bit 12.
funct3_of_lem : (i : ℕ) → i % 4 ≡ 3 → funct3_of i ≡ i / 2 ^ 12 % 8
unfolding funct3_of
funct3_of_lem i h = ground arith

module _ (f : ℕ) (rd_ok rs1_ok : Bool) where
  kind_b : f ≢ 2 → f ≢ 3 → kind opcode_b_type f rd_ok rs1_ok ≡ record no_kind { b_type = true }
  unfolding kind
  kind_b two three = ground arith

  kind_csr :
      f ≢ 0
      → f ≢ 4
      → kind opcode_system f rd_ok rs1_ok ≡ record no_kind { i_type = true; c_type = true }
  unfolding kind
  kind_csr not_zero not_four = ground arith

kind_sys : kind opcode_system 0 false false ≡ record no_kind { i_type = true; y_type = true }
unfolding kind
kind_sys = refl

module _ (i : ℕ) where
  -- The kind that the decoder computes, given the opcode.
  kind_at : ℕ → Kind
  kind_at op = kind op (funct3_of i) (truth (slice i 7 5)) (truth (slice i 15 5))

  -- The decoder's outputs, given the opcode and what the `case` makes of it.
  by_kind :
      (op : ℕ) (k : Kind)
      → i % 128 ≡ op
      → op % 4 ≡ 3
      → kind_at op ≡ k
      → ((decode i).kinds ≡ k)
        × ((decode i).immediate ≡ immediate_of k i)
        × ((decode i).funct3 ≡ i / 2 ^ 12 % 8)
        × ((decode i).illegal ≡ (k.illegal_op || k.illegal_funct3))
  unfolding decode kind_at
  by_kind op k h full e =
      let o : slice i 0 7 ≡ op = omega arith in
      let kinds : (decode i).kinds ≡ k = ap kind_at o ∙ e in
      (
        kinds,
        ap (λ c. immediate_of c i) kinds,
        funct3_of_lem i (omega arith),
        ap (λ (c : Kind). c.illegal_op || c.illegal_funct3) kinds,
      )

  pub decode_s :
      i % 128 ≡ opcode_s_type
      → ((decode i).kinds ≡ record no_kind { s_type = true })
        × ((decode i).immediate ≡ imm_s i)
        × ((decode i).funct3 ≡ i / 2 ^ 12 % 8)
        × ((decode i).illegal ≡ false)
  unfolding kind immediate_of kind_at
  decode_s h = by_kind opcode_s_type _ h refl refl

  pub decode_lui :
      i % 128 ≡ opcode_u_type_lui
      → ((decode i).kinds ≡ record no_kind { u_type = true })
        × ((decode i).immediate ≡ imm_u i)
        × ((decode i).funct3 ≡ i / 2 ^ 12 % 8)
        × ((decode i).illegal ≡ false)
  unfolding kind immediate_of kind_at
  decode_lui h = by_kind opcode_u_type_lui _ h refl refl

  pub decode_auipc :
      i % 128 ≡ opcode_u_type_auipc
      → ((decode i).kinds ≡ record no_kind { u_type = true })
        × ((decode i).immediate ≡ imm_u i)
        × ((decode i).funct3 ≡ i / 2 ^ 12 % 8)
        × ((decode i).illegal ≡ false)
  unfolding kind immediate_of kind_at
  decode_auipc h = by_kind opcode_u_type_auipc _ h refl refl

  pub decode_jal :
      i % 128 ≡ opcode_u_type_jal
      → ((decode i).kinds ≡ record no_kind { j_type = true })
        × ((decode i).immediate ≡ imm_j i)
        × ((decode i).funct3 ≡ i / 2 ^ 12 % 8)
        × ((decode i).illegal ≡ false)
  unfolding kind immediate_of kind_at
  decode_jal h = by_kind opcode_u_type_jal _ h refl refl

  pub decode_r :
      i % 128 ≡ opcode_r_type
      → ((decode i).kinds ≡ record no_kind { r_type = true })
        × ((decode i).immediate ≡ 0)
        × ((decode i).funct3 ≡ i / 2 ^ 12 % 8)
        × ((decode i).illegal ≡ false)
  unfolding kind immediate_of kind_at
  decode_r h = by_kind opcode_r_type _ h refl refl

  pub decode_r32 :
      i % 128 ≡ opcode_rtype_32
      → ((decode i).kinds ≡ record no_kind { r_type = true; is_op32 = true })
        × ((decode i).immediate ≡ 0)
        × ((decode i).funct3 ≡ i / 2 ^ 12 % 8)
        × ((decode i).illegal ≡ false)
  unfolding kind immediate_of kind_at
  decode_r32 h = by_kind opcode_rtype_32 _ h refl refl

  pub decode_alu :
      i % 128 ≡ opcode_i_type_alu
      → ((decode i).kinds ≡ record no_kind { i_type = true })
        × ((decode i).immediate ≡ imm_i i)
        × ((decode i).funct3 ≡ i / 2 ^ 12 % 8)
        × ((decode i).illegal ≡ false)
  unfolding kind immediate_of kind_at
  decode_alu h = by_kind opcode_i_type_alu _ h refl refl

  pub decode_alu32 :
      i % 128 ≡ opcode_itype_imm_32
      → ((decode i).kinds ≡ record no_kind { i_type = true; is_op32 = true })
        × ((decode i).immediate ≡ imm_i i)
        × ((decode i).funct3 ≡ i / 2 ^ 12 % 8)
        × ((decode i).illegal ≡ false)
  unfolding kind immediate_of kind_at
  decode_alu32 h = by_kind opcode_itype_imm_32 _ h refl refl

  pub decode_load :
      i % 128 ≡ opcode_i_type_load
      → ((decode i).kinds ≡ record no_kind { i_type = true })
        × ((decode i).immediate ≡ imm_i i)
        × ((decode i).funct3 ≡ i / 2 ^ 12 % 8)
        × ((decode i).illegal ≡ false)
  unfolding kind immediate_of kind_at
  decode_load h = by_kind opcode_i_type_load _ h refl refl

  pub decode_jalr :
      i % 128 ≡ opcode_i_type_jalr
      → ((decode i).kinds ≡ record no_kind { i_type = true })
        × ((decode i).immediate ≡ imm_i i)
        × ((decode i).funct3 ≡ i / 2 ^ 12 % 8)
        × ((decode i).illegal ≡ false)
  unfolding kind immediate_of kind_at
  decode_jalr h = by_kind opcode_i_type_jalr _ h refl refl

  pub decode_b :
      i % 128 ≡ opcode_b_type
      → i / 2 ^ 12 % 8 ≢ 2
      → i / 2 ^ 12 % 8 ≢ 3
      → ((decode i).kinds ≡ record no_kind { b_type = true })
        × ((decode i).immediate ≡ imm_b i)
        × ((decode i).funct3 ≡ i / 2 ^ 12 % 8)
        × ((decode i).illegal ≡ false)
  unfolding immediate_of kind_at
  decode_b h two three =
      let f : funct3_of i ≡ i / 2 ^ 12 % 8 = funct3_of_lem i (omega arith) in
      by_kind opcode_b_type _ h refl (kind_b _ _ _ (omega (arith, f)) (omega (arith, f)))

  pub decode_csr :
      i % 128 ≡ opcode_system
      → i / 2 ^ 12 % 8 ≢ 0
      → i / 2 ^ 12 % 8 ≢ 4
      → ((decode i).kinds ≡ record no_kind { i_type = true; c_type = true })
        × ((decode i).immediate ≡ imm_i i)
        × ((decode i).funct3 ≡ i / 2 ^ 12 % 8)
        × ((decode i).illegal ≡ false)
  unfolding immediate_of kind_at
  decode_csr h not_zero not_four =
      let f : funct3_of i ≡ i / 2 ^ 12 % 8 = funct3_of_lem i (omega arith) in
      by_kind opcode_system _ h refl (kind_csr _ _ _ (omega (arith, f)) (omega (arith, f)))

  pub decode_sys :
      i % 128 ≡ opcode_system
      → i / 2 ^ 12 % 8 ≡ 0
      → i / 2 ^ 7 % 32 ≡ 0
      → i / 2 ^ 15 % 32 ≡ 0
      → ((decode i).kinds ≡ record no_kind { i_type = true; y_type = true })
        × ((decode i).immediate ≡ imm_i i)
        × ((decode i).funct3 ≡ i / 2 ^ 12 % 8)
        × ((decode i).illegal ≡ false)
  unfolding immediate_of kind_at
  decode_sys h f rd rs1 =
      let f' : funct3_of i ≡ 0 = omega (arith, funct3_of_lem i (omega arith)) in
      by_kind opcode_system _ h refl (rw (f', rd, rs1) kind_sys)

  pub decode_addresses :
      ((decode i).opcode ≡ i % 128)
      × ((decode i).rd_addr ≡ i / 2 ^ 7 % 32)
      × ((decode i).rs1_addr ≡ i / 2 ^ 15 % 32)
      × ((decode i).rs2_addr ≡ i / 2 ^ 20 % 32)
      × ((decode i).funct7 ≡ i / 2 ^ 25 % 128)
  unfolding decode
  decode_addresses = omega arith
