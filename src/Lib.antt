-- ===== src/Lib.antt =====
-- HyperMI protects virtual machines from a hostile hypervisor. A kernel module, SecureVM,
-- hooks functions of the kernel and of KVM; the replacements run behind a gate that turns
-- interrupts off and loads cr3, guard page tables, control registers and the VMCS, and track
-- in a table which VM owns each physical page.
--
-- The parts, and the files that model them:
-- - Hook: the hook installers of src/SecureVM/set_hook.h, and the hooks of my_init and my_exit
--   in src/SecureVM/hookcr32.c. The state is `Kernel`: kernel text by byte address, page-table
--   entries by their address, and the globals mem_X and orig_code_X, which one `Site` stands
--   for. Data holds the state, Install the body that the installers share, Vmcs, Kvm and Page
--   the installers by subject, Session my_init and my_exit. `lookup_address` of the kernel is a
--   parameter.
-- - PageFlag: the table pageflag of src/SecureVM/gate_function.h and the handlers that the
--   hooked kernel calls when a page is mapped (Map), merged (Merge), freed or ballooned (Free),
--   and the report of releases (Release). The state is `Table`. What the kernel knows of pages
--   and virtual CPUs is the parameter `Host`. The random numbers of a report are a list of
--   coming draws; the report is starved where the list ends too soon.
-- - Gate: the processor and the globals (Machine), the operations of
--   src/SecureVM/native_gate_function.h (Native), the lines that open and close the gate, with
--   the instructions of src/SecureVM/interupt.h (Switch), and the replacements of
--   src/SecureVM/gate_function.h that use it (Handlers). __pa, __va, TASK_SIZE_MAX,
--   __do_page_fault and vmx_vcpu_run_sec of the kernel are parameters.
-- - Vmcs: new_vmcs_writel, new_vmcs_readl and new_vmcs_clear of src/SecureVM/gate_function.h
--   (Access), and their field arrays (Fields). The VMX instructions and the mode of a virtual
--   CPU are parameters.
-- - Paging: page tables. The six walks of src/SecureVM/set_pgprot.h and
--   src/SecureVM/set_pgprotrw.h over a memory of words (Protect), with the loop `for_each`, and
--   `find` of src/SecureVM/find.h with the struct of src/SecureVM/struct_pt.h (Find). The tests
--   of a large or empty entry are parameters.
--   The copies of src/SecureVM/copy_pg.h work on a `Store`: memory, cr3 and the pages that the
--   allocator will give (Store). Copy holds copy_pagetable and what is built on it, one
--   definition for the loop body of each level, Copy/Update update_pagetable, and Copy/Count
--   the count of entries. The kernel's functions are the parameter `PageKernel`. A loop that
--   asks for a page until it gets one is starved where the list of pages ends.
-- - Kvm: the other replacements of src/SecureVM/gate_function.h, on the state of Gate: the
--   page-fault handler of a VM with its list of VMs (Tdp), which runs update_pagetable on the
--   same memory, the roots of a virtual CPU (Mmu), the searches is_in_pfn and
--   compare_addr_right12 (Search), and init_struct, sec_monitor_test and, of
--   src/SecureVM/sec_monitor.h, sec_monitor (Start). KVM's own functions are
--   parameters.
-- - Load: the module as a whole, my_init and my_exit of src/SecureVM/hookcr32.c, on the state
--   `System`: the kernel text of Hook and the machine of Gate side by side.
-- - Smp: the handlers of src/SecureVM/gate_function.h that write a page-table entry, cr0, cr4 or
--   cr8, statement by statement, on several processors that share memory and the globals. The
--   state is `Smp`; `Step` runs the next statement of one processor or, outside, hands it its
--   next call (Calls). A statement is taken as one step. Calm has the invariant that Safe,
--   Finish, Race, Protected and Delivers build on, Effects what a statement writes.
-- - Nest: the handlers of src/SecureVM/gate_function.h as the kernel enters them one inside
--   another, described by a tree of calls, faults and runs of virtual CPUs, `Work`.
-- - Base: runs, memory as a function, bit operations by fields, tests on numbers.
--
-- A function of the source is a definition of the same name, and code that changes state is a
-- `Cmd`: it returns with a result and a state, faults where C leaves an access undefined or
-- the processor refuses it, or is starved of an input. The hooks run on the state
-- of Hook, each handler on the state of its own part; Kvm runs the copies of Paging on the
-- memory of Gate, Vmcs reads the VMs that Kvm lists (Kvm/Admits), Load runs the hooks and the
-- set-up of Kvm one after the other, and the parts share no other state in the model. Hook/Order
-- holds the induction over the thirteen hooks that Hook/Unload and Hook/Mediation use;
-- Hook/Opened follows the protection of the pages.
-- Words are natural numbers; `slot` of the tag table wraps as an unsigned long does. Loops
-- are structural recursions, over a list or a count. The walk over the list of VMs alone has
-- fuel, seven turns: it faults when it would enter a seventh VM into the array of six, so it
-- never asks for more. PageFlag/Owners is the specification of the tag table, the
-- owners after each call, which PageFlag/Refine relates to the handlers.
--
-- What the processor refuses is modelled for stores to kernel text, which need the R/W bit of the
-- last entry that lookup_address finds, and for sload_ldt. The values written to cr0, cr3, cr4 and
-- cr8 are taken to be valid, and page-table entries to stand at mapped, writable addresses.
--
-- Not modelled: src/SecureVM/gate_headerfile.h, which declares; interleavings of processors
-- inside a statement, and of new_native_write_cr3 and the handlers that call the kernel or KVM
-- inside the gate, of which Nest follows new_do_page_fault and new_vmx_vcpu_run on one processor;
-- the other handlers of KVM and new_native_write_cr3 inside one another; code that the sources
-- comment out; the kernel tree linux-4.4.1, which is not HyperMI's own.
pub mod Base
pub mod Hook
pub mod PageFlag
pub mod Gate
pub mod Vmcs
pub mod Paging
pub mod Kvm
pub mod Load
pub mod Smp
pub mod Nest
