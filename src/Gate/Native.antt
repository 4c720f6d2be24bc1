-- ===== src/Gate/Native.antt =====
-- src/SecureVM/native_gate_function.h: the operations that a gate encloses. `pa` is the kernel's
-- __pa, `get_zeroed_page` the page that it gives, and `fault_handler` its __do_page_fault.
use hyper_mi.Base.{
  ℕ, Bool, fault, ◌^◌, not, ◌||◌, bit_or, leb, ◌==◌, if◌then◌else◌, update, Cmd, ok, pure, modify,
  ◌>>◌,
}
use hyper_mi.Gate.Machine.{
  DescPtr, Machine, print, lgdt_notice, lidt_notice, lldt_notice, cr0_notice, cr3_notice,
  cr4_notice, set_pte_notice, set_pmd_notice, attention_notice,
}

unfoldable pub get_mem : ℕ → Cmd Machine (Unit {0})
get_mem get_zeroed_page = modify (λ m. record m { space_addr = get_zeroed_page })

-- The write-protect bit of cr0 is always set.
unfoldable pub snative_write_cr0 : ℕ → Cmd Machine (Unit {0})
snative_write_cr0 val m =
    let new = bit_or val (2 ^ 16) in
    (print cr0_notice
        >> (if not (not (new == m.cr0)) then pure tt else modify (λ u. record u { cr0 = new })))
      m

unfoldable pub snative_write_cr3 : (ℕ → ℕ) → ℕ → Cmd Machine (Unit {0})
snative_write_cr3 pa val m =
    (print cr3_notice
        >> (if not (not (val == m.cr3) || not (val == pa m.space_addr))
            then pure tt
            else modify (λ u. record u { cr3 = val })))
      m

unfoldable pub snative_write_cr4 : ℕ → Cmd Machine (Unit {0})
snative_write_cr4 val m =
    (print cr4_notice
        >> (if not (not (val == m.cr4)) then pure tt else modify (λ u. record u { cr4 = val })))
      m

unfoldable pub snative_write_cr8 : ℕ → Cmd Machine (Unit {0})
snative_write_cr8 val m =
    if not (not (val == m.cr8)) then ok tt m else ok tt (record m { cr8 = val })

unfoldable pub snative_load_gdt : DescPtr → Cmd Machine (Unit {0})
snative_load_gdt dtr = print lgdt_notice >> modify (λ m. record m { gdtr = dtr })

unfoldable pub snative_load_idt : DescPtr → Cmd Machine (Unit {0})
snative_load_idt dtr = print lidt_notice >> modify (λ m. record m { idtr = dtr })

-- `lldt` reads a selector, the first word of the operand, here the size. `is_ldt` tells the
-- selectors that the processor takes.
unfoldable pub sload_ldt : (is_ldt : ℕ → Bool) → DescPtr → Cmd Machine (Unit {0})
sload_ldt is_ldt ldt = print lldt_notice >> λ m.
    if is_ldt ldt.size then ok tt (record m { ldtr = ldt.size }) else fault

unfoldable pub snative_set_pte : ℕ → ℕ → Cmd Machine (Unit {0})
snative_set_pte ptep pte =
    print set_pte_notice >> modify (λ u. record u { memory = update u.memory ptep pte })

unfoldable pub snative_set_pmd : ℕ → ℕ → Cmd Machine (Unit {0})
snative_set_pmd pmdp pmd =
    print set_pmd_notice >> modify (λ u. record u { memory = update u.memory pmdp pmd })

unfoldable pub sdo_page_fault :
    (task_size_max : ℕ)
    → (fault_handler : ℕ → ℕ → ℕ → Cmd Machine (Unit {0})) → (regs error_code : ℕ)
    → Cmd Machine (Unit {0})
sdo_page_fault task_size_max fault_handler regs error_code m =
    ((if leb task_size_max m.cr2 then print attention_notice else pure tt)
        >> fault_handler regs error_code m.cr2)
      m
