-- ===== src/Translation/Methods.antt =====
-- reil/translation.cpp: the methods that add one instruction, and those that put its result in a
-- new temporary.
use reil.Instruction.{Operand, operand_size}
use reil.Instruction.Build
use reil.Translation.{Method, push, emit, to_new, double, ite, bisz, bisnz, smul, sdiv}

unfoldable pub add : Operand → Operand → Operand → Method Operand
add input0 input1 output = emit (Build.add input0 input1 output) output

unfoldable pub and : Operand → Operand → Operand → Method Operand
and input0 input1 output = emit (Build.and input0 input1 output) output

unfoldable pub bsh : Operand → Operand → Operand → Method Operand
bsh input0 input1 output = emit (Build.bsh input0 input1 output) output

unfoldable pub div : Operand → Operand → Operand → Method Operand
div input0 input1 output = emit (Build.div input0 input1 output) output

unfoldable pub modulus : Operand → Operand → Operand → Method Operand
modulus input0 input1 output = emit (Build.modulus input0 input1 output) output

unfoldable pub mul : Operand → Operand → Operand → Method Operand
mul input0 input1 output = emit (Build.mul input0 input1 output) output

unfoldable pub or : Operand → Operand → Operand → Method Operand
or input0 input1 output = emit (Build.or input0 input1 output) output

unfoldable pub sub : Operand → Operand → Operand → Method Operand
sub input0 input1 output = emit (Build.sub input0 input1 output) output

unfoldable pub xor : Operand → Operand → Operand → Method Operand
xor input0 input1 output = emit (Build.xor input0 input1 output) output

unfoldable pub equ : Operand → Operand → Operand → Method Operand
equ input0 input1 output = emit (Build.equ input0 input1 output) output

unfoldable pub lshl : Operand → Operand → Operand → Method Operand
lshl input0 input1 output = emit (Build.lshl input0 input1 output) output

unfoldable pub lshr : Operand → Operand → Operand → Method Operand
lshr input0 input1 output = emit (Build.lshr input0 input1 output) output

unfoldable pub ashr : Operand → Operand → Operand → Method Operand
ashr input0 input1 output = emit (Build.ashr input0 input1 output) output

unfoldable pub ldm : Operand → Operand → Method Operand
ldm input0 output = emit (Build.ldm input0 output) output

unfoldable pub stm : Operand → Operand → Method Operand
stm input0 output = emit (Build.stm input0 output) output

unfoldable pub str : Operand → Operand → Method Operand
str input0 output = emit (Build.str input0 output) output

unfoldable pub sex : Operand → Operand → Method Operand
sex input0 output = emit (Build.sex input0 output) output

unfoldable pub jcc : Operand → Operand → Method Unit
jcc input0 output = push (Build.jcc input0 output)

unfoldable pub nop : Method Unit
nop = push Build.nop

unfoldable pub nop_with : Operand → Method Operand
nop_with input0 = emit (Build.nop_with input0) input0

unfoldable pub undef : Operand → Method Unit
undef output = push (Build.undef output)

unfoldable pub unkn : Method Unit
unkn = push Build.unkn

unfoldable pub sys : Operand → Method Unit
sys input0 = push (Build.sys input0)

unfoldable pub new_sub : Operand → Operand → Method Operand
new_sub a b = to_new (double a) (sub a b)

unfoldable pub new_smul : Operand → Operand → Method Operand
new_smul a b = to_new (double a) (smul a b)

unfoldable pub new_div : Operand → Operand → Method Operand
new_div a b = to_new (operand_size a) (div a b)

unfoldable pub new_modulus : Operand → Operand → Method Operand
new_modulus a b = to_new (operand_size a) (modulus a b)

unfoldable pub new_xor : Operand → Operand → Method Operand
new_xor a b = to_new (operand_size a) (xor a b)

unfoldable pub new_lshl : Operand → Operand → Method Operand
new_lshl a b = to_new (operand_size a) (lshl a b)

unfoldable pub new_lshr : Operand → Operand → Method Operand
new_lshr a b = to_new (operand_size a) (lshr a b)

unfoldable pub new_ashr : Operand → Operand → Method Operand
new_ashr a b = to_new (operand_size a) (ashr a b)

unfoldable pub new_sdiv : Operand → Operand → Method Operand
new_sdiv a b = to_new (operand_size a) (sdiv a b)

unfoldable pub new_equ : Operand → Operand → Method Operand
new_equ a b = to_new 8 (equ a b)

unfoldable pub new_bisz : Operand → Method Operand
new_bisz a = to_new 8 (bisz a)

unfoldable pub new_bisnz : Operand → Method Operand
new_bisnz a = to_new 8 (bisnz a)

unfoldable pub new_ite : Operand → Operand → Operand → Method Operand
new_ite a b c = to_new (operand_size b) (ite a b c)
