-- ===== src/Aarch64/Decoder/Opcode.antt =====
-- reil/aarch64/decoder.h: the opcodes of AArch64.
pub data Opcode : Type 0 where
  adr adrp add_immediate sub_immediate and_immediate orr_immediate eor_immediate movk movn : Opcode
  movz bfm sbfm ubfm extr b_cond brk dcps1 dcps2 dcps3 hlt hvc smc svc autia1716 autiasp : Opcode
  autiaz autib1716 autibsp autibz clrex dmb dsb esb hint isb mrs msr nop pacia1716 paciasp : Opcode
  paciaz pacib1716 pacibsp pacibz psb_csync sev sevl sys sysl wfe wfi xpaclri yield blr : Opcode
  blraa blraaz blrab blrabz br braa braaz brab brabz drps eret eretaa eretaaz eretab eretabz :
      Opcode
  ret retaa retaaz retab retabz b bl cbnz cbz tbnz tbz cas casa casal casl casp caspa caspal :
      Opcode
  caspl ldar ldaxp ldaxr ldlar ldxp ldxr stllr stlr stlxp stlxr stxp stxr simd_ldr_literal : Opcode
  ldr_literal ldrs_literal prfm_literal simd_ldnp simd_ldp simd_stnp simd_stp ldnp ldp ldpsw :
      Opcode
  stnp stp simd_ldr simd_ldur simd_str simd_stur ldr ldrs ldtr ldtrs ldur ldurs prfm str : Opcode
  sttr stur asr crc32b crc32cb crc32ch crc32cw crc32cx crc32h crc32w crc32x lsl lsr pacga : Opcode
  ror sdiv udiv autda autdb autia autib clz cls pacda pacdb pacia pacib rbit rev rev16 rev32 :
      Opcode
  xpacd xpaci and_shifted_register bic_shifted_register orr_shifted_register : Opcode
  orn_shifted_register eor_shifted_register eon_shifted_register add_shifted_register : Opcode
  sub_shifted_register add_extended_register sub_extended_register adc sbc ccmn ccmp csel : Opcode
  csinc csinv csneg madd msub smaddl smulh smsubl umaddl umulh umsubl unallocated : Opcode
