-- ===== src/Instruction/Build.antt =====
-- reil/reil.cpp: one function for each kind of instruction.
use reil.Instruction.{Opcode, Operand, Instruction, no_operand}

-- An instruction with none of its operands given.
abbrev pub blank : Opcode → Instruction
blank opcode = record {
  opcode = opcode;
  input0 = no_operand;
  input1 = no_operand;
  input2 = no_operand;
  output = no_operand;
}

unfoldable pub add : Operand → Operand → Operand → Instruction
add input0 input1 output = record (blank Opcode.add) {
  input0 = input0;
  input1 = input1;
  output = output;
}

unfoldable pub and : Operand → Operand → Operand → Instruction
and input0 input1 output = record (blank Opcode.and) {
  input0 = input0;
  input1 = input1;
  output = output;
}

unfoldable pub bisz : Operand → Operand → Instruction
bisz input0 output = record (blank Opcode.bisz) { input0 = input0; output = output }

unfoldable pub bsh : Operand → Operand → Operand → Instruction
bsh input0 input1 output = record (blank Opcode.bsh) {
  input0 = input0;
  input1 = input1;
  output = output;
}

unfoldable pub div : Operand → Operand → Operand → Instruction
div input0 input1 output = record (blank Opcode.div) {
  input0 = input0;
  input1 = input1;
  output = output;
}

unfoldable pub jcc : Operand → Operand → Instruction
jcc input0 output = record (blank Opcode.jcc) { input0 = input0; output = output }

unfoldable pub jcc_hint : Operand → Operand → Operand → Instruction
jcc_hint input0 input1 output = record (blank Opcode.jcc) {
  input0 = input0;
  input1 = input1;
  output = output;
}

unfoldable pub ldm : Operand → Operand → Instruction
ldm input0 output = record (blank Opcode.ldm) { input0 = input0; output = output }

unfoldable pub modulus : Operand → Operand → Operand → Instruction
modulus input0 input1 output = record (blank Opcode.modulus) {
  input0 = input0;
  input1 = input1;
  output = output;
}

unfoldable pub mul : Operand → Operand → Operand → Instruction
mul input0 input1 output = record (blank Opcode.mul) {
  input0 = input0;
  input1 = input1;
  output = output;
}

unfoldable pub nop : Instruction
nop = blank Opcode.nop

unfoldable pub nop_with : Operand → Instruction
nop_with input0 = record (blank Opcode.nop) { input0 = input0 }

unfoldable pub or : Operand → Operand → Operand → Instruction
or input0 input1 output = record (blank Opcode.or) {
  input0 = input0;
  input1 = input1;
  output = output;
}

unfoldable pub stm : Operand → Operand → Instruction
stm input0 output = record (blank Opcode.stm) { input0 = input0; output = output }

unfoldable pub str : Operand → Operand → Instruction
str input0 output = record (blank Opcode.str) { input0 = input0; output = output }

unfoldable pub sub : Operand → Operand → Operand → Instruction
sub input0 input1 output = record (blank Opcode.sub) {
  input0 = input0;
  input1 = input1;
  output = output;
}

unfoldable pub undef : Operand → Instruction
undef output = record (blank Opcode.undef) { output = output }

unfoldable pub unkn : Instruction
unkn = blank Opcode.unkn

unfoldable pub xor : Operand → Operand → Operand → Instruction
xor input0 input1 output = record (blank Opcode.xor) {
  input0 = input0;
  input1 = input1;
  output = output;
}

unfoldable pub equ : Operand → Operand → Operand → Instruction
equ input0 input1 output = record (blank Opcode.equ) {
  input0 = input0;
  input1 = input1;
  output = output;
}

unfoldable pub lshl : Operand → Operand → Operand → Instruction
lshl input0 input1 output = record (blank Opcode.lshl) {
  input0 = input0;
  input1 = input1;
  output = output;
}

unfoldable pub lshr : Operand → Operand → Operand → Instruction
lshr input0 input1 output = record (blank Opcode.lshr) {
  input0 = input0;
  input1 = input1;
  output = output;
}

unfoldable pub ashr : Operand → Operand → Operand → Instruction
ashr input0 input1 output = record (blank Opcode.ashr) {
  input0 = input0;
  input1 = input1;
  output = output;
}

unfoldable pub sex : Operand → Operand → Instruction
sex input0 output = record (blank Opcode.sex) { input0 = input0; output = output }

unfoldable pub sys : Operand → Instruction
sys input0 = record (blank Opcode.sys) { input0 = input0 }

unfoldable pub ite : Operand → Operand → Operand → Operand → Instruction
ite input0 input1 input2 output = record (blank Opcode.ite) {
  input0 = input0;
  input1 = input1;
  input2 = input2;
  output = output;
}
