-- ===== src/Amd/Examples.antt =====
-- The AMD guest at concrete inputs.
use barevisor.Base.{
  ℕ, ◌/◌, ◌%◌, ◌^◌, ◌≤◌, ◌≡◌, refl, ◌≢◌, true, false, Option, none, some, List, [], ◌∷◌, arith,
  ◌==◌, if◌then◌else◌, Outcome,
}
use barevisor.BitFields.{get_bit}
use barevisor.BitFields.Arith.{arith_fields}
use barevisor.Host.{default_registers}
use barevisor.Amd.{
  SvmGuest, zeroed_control_area, zeroed_state_save_area, state_active, state_wait_for_sipi,
  flush_all,
}
use barevisor.Amd.{StateSaveArea}
use barevisor.Amd.Handover.{
  SystemRegisters, GuestMsrs, IsVmsave, initialize_guest, load_guest_cpu_state,
}
use barevisor.Amd.Handover.Restored.{IsRestored, load_guest_cpu_state-initialize_guest}
use barevisor.Amd.New.{new, intercept_apic_write-new}
use barevisor.Paging.{writable}
use barevisor.Amd.Svm
use barevisor.Amd.Svm.{default_svm, disable-enable}
use barevisor.Amd.Startup.{sipi_state, IsRestarted, restart, restart-IsRestarted}
use barevisor.Amd.Protocol.{
  running, waiting, stopped, starting, System, send, advance_at, init_at, Steps, done, more,
  takes_init, sends, advances, started,
}
use barevisor.Amd.Protocol.Sound.{Steps-IsSound}
use barevisor.Amd.Protocol.Delivery.{Access, AllOthers, interleaved, advance_at-send}
use barevisor.Amd.Apic.Instruction.{store}
use barevisor.Amd.Apic.{Shared, intercept_apic_write, decode, write_apic, store_edx_at_rax_300}
use barevisor.Amd.Apic.Emulation.{decode-IsFetched, write_apic-interleaved}

abbrev guest_at : ℕ → SvmGuest
guest_at i = record {
  id = i;
  registers = record default_registers { rax = 0xfee0_0000; rdx = 0x0000_0609 };
  control_area = zeroed_control_area;
  state_save_area = zeroed_state_save_area;
}

restart-IsRestarted_example :
    (after : SvmGuest) × (restart arith_fields 0x8005_0033 0x80_0f82 9 (guest_at 2)
      ≡ Outcome.returns after)
    × IsRestarted arith_fields 9 (guest_at 2) after
restart-IsRestarted_example =
    restart-IsRestarted arith_fields 0x8005_0033 0x80_0f82 9 (guest_at 2) (omega arith)
      (omega arith)

-- Processor 1 takes INIT, looks, is sent vector 9, and takes it.
abbrev at_init : System
at_init = init_at arith_fields 0x8005_0033 0x80_0f82 1 (started guest_at)

abbrev at_sipi : System
at_sipi = send 1 9 (advance_at 1 at_init)

abbrev at_start : System
at_start = advance_at 1 (advance_at 1 at_sipi)

to_start : Steps arith_fields (started guest_at) at_start
to_start = more _ at_init _ (takes_init _ 1 0x8005_0033 0x80_0f82 (omega arith) refl) (
    more _ (advance_at 1 at_init) _ (advances _ 1) (
      more _ at_sipi _ (sends _ 1 9 (omega arith)) (
        more _ (advance_at 1 at_sipi) _ (advances _ 1)
          (more _ at_start _ (advances _ 1) (done _)))))

Steps-IsSound_example :
    ((at_start.cpus 1).location ≢ stopped)
    × ((vector : ℕ) → (at_start.cpus 1).location ≡ starting vector → at_start.sent 1 vector ≡ true)
Steps-IsSound_example =
    Steps-IsSound arith_fields guest_at at_start (λ i. refl) to_start 1 (omega arith)

abbrev all_waiting : System
all_waiting = record {
  cpus = λ i. record { guest = guest_at i; location = waiting };
  activity_states = λ i. state_wait_for_sipi;
  sent = λ i v. false;
}

-- Another processor also starts, and vectors are sent late.
abbrev early : List Access
early = Access.sends 2 9 ∷ Access.advances 2 ∷ []

abbrev late : List Access
late = Access.sends 3 7 ∷ Access.advances 2 ∷ []

abbrev delivered : System
delivered = interleaved 3 early late late (send 3 9 all_waiting)

others_early : AllOthers 3 early
others_early = (omega arith, tt)

others_late : AllOthers 3 late
others_late = (omega arith, tt)

advance_at-send_example :
    ((delivered.cpus 3).location ≡ running)
    × ((delivered.cpus 3).guest ≡ sipi_state 9 (guest_at 3))
    × (delivered.activity_states 3 ≡ state_active)
advance_at-send_example =
    advance_at-send 3 9 early late late all_waiting (omega arith) refl refl refl (omega arith)
      others_early others_late others_late

sent_by_edx : decode (guest_at 0).registers store_edx_at_rax_300 ≡ Outcome.returns (0x609, 6)
unfolding decode
sent_by_edx = refl

decode-IsFetched_example :
    (store (guest_at 0).registers store_edx_at_rax_300 ≡ some (0x609, 6)) × (6 ≤ 6)
decode-IsFetched_example =
    decode-IsFetched (guest_at 0).registers store_edx_at_rax_300 0x609 6 sent_by_edx

-- The bootstrap processor sends vector 9 to APIC id 4, which is processor 3.
abbrev command_register : Shared
command_register = record {
  pt_apic = λ i. 0;
  activity_states = λ i. state_wait_for_sipi;
  memory = λ address. if address == 0xfee0_0310 then 0x0400_0000 else 0;
}

abbrev apic_ids : ℕ → Option ℕ
apic_ids apic_id = if apic_id == 4 then some 3 else none

physical : get_bit arith_fields 11 0x609 ≡ false
unfolding get_bit
physical = refl

write_apic-interleaved_example :
    (after : Shared) × (write_apic arith_fields apic_ids 0xfee0_0300 0x609 command_register
      ≡ Outcome.returns after)
    × (after.memory ≡ command_register.memory)
    × (after.pt_apic ≡ command_register.pt_apic)
    × ((j : ℕ) → j ≢ 3 → after.activity_states j ≡ command_register.activity_states j)
    × (let t =
          interleaved 3 early late late
            (record all_waiting { activity_states = after.activity_states }) in
        ((t.cpus 3).location ≡ running)
        × ((t.cpus 3).guest ≡ sipi_state 9 (guest_at 3))
        × (t.activity_states 3 ≡ state_active))
write_apic-interleaved_example =
    write_apic-interleaved arith_fields apic_ids 0xfee0_0300 0x609 3 command_register all_waiting
      early late late refl (omega arith) refl physical refl refl (omega arith) (omega arith)
      (omega arith) refl refl refl others_early others_late others_late

-- A processor of 64-bit mode, with the documented numbers of its registers.
abbrev guest_msrs : GuestMsrs
guest_msrs = record {
  ia32_efer = 0xc000_0080;
  ia32_pat = 0x277;
  ia32_fs_base = 0xc000_0100;
  ia32_gs_base = 0xc000_0101;
}

abbrev long_mode : SystemRegisters
long_mode = record {
  cr0 = 0x8005_0033;
  cr3 = 0x10_1000;
  cr4 = 0x668;
  es = 0;
  cs = 0x38;
  ss = 0x30;
  ds = 0;
  gdtr = record { table_base = 0x7000; limit = 0x47 };
  idtr = record { table_base = 0x8000; limit = 0xfff };
  msr = λ i. i;
}

abbrev save_bases : SystemRegisters → StateSaveArea → StateSaveArea
save_bases cpu s = record s { fs_base = cpu.msr 0xc000_0100; gs_base = cpu.msr 0xc000_0101 }

save_bases-IsVmsave : IsVmsave guest_msrs save_bases
save_bases-IsVmsave = record {
  fs_saved = λ cpu s. refl;
  gs_saved = λ cpu s. refl;
  rest_kept = λ cpu s. (refl, refl, refl, refl, refl, refl, refl, refl);
}

load_guest_cpu_state-initialize_guest_example : IsRestored guest_msrs long_mode (
    load_guest_cpu_state guest_msrs
      (initialize_guest guest_msrs save_bases (λ a. 0) long_mode (guest_at 1))
      (record long_mode { cr3 = 0x20_0000; msr = λ i. 0 }))
load_guest_cpu_state-initialize_guest_example =
    load_guest_cpu_state-initialize_guest guest_msrs save_bases save_bases-IsVmsave (λ a. 0)
      long_mode (record long_mode { cr3 = 0x20_0000; msr = λ i. 0 }) (guest_at 1) (omega arith)
      (omega arith) (omega arith) (omega arith) (omega arith)

-- A guest that has set the NX bit of EFER since.
abbrev with_nx : SvmGuest
with_nx = record (guest_at 0) {
  state_save_area = record zeroed_state_save_area { efer = 0x1d01; cr3 = 0x1ad000 };
}

abbrev svm_on : Svm.Svm × SystemRegisters
svm_on = Svm.enable guest_msrs (default_svm, long_mode)

disable-enable_example :
    (svm_on.1.msr 0xc000_0080 / 2 ^ 12 % 2 ≡ 1)
    × ((load_guest_cpu_state guest_msrs with_nx svm_on.1).msr 0xc000_0080 ≡ 0xd01)
    × ((Svm.disable guest_msrs (svm_on.0, load_guest_cpu_state guest_msrs with_nx svm_on.1)).1.msr
          0xc000_0080
        ≡ long_mode.msr 0xc000_0080)
    × ((Svm.disable guest_msrs (svm_on.0, load_guest_cpu_state guest_msrs with_nx svm_on.1)).1.cr3
        ≡ 0x1ad000)
disable-enable_example =
    disable-enable guest_msrs default_svm long_mode with_nx (omega arith) (omega arith)

abbrev all_writable : Shared
all_writable = record { pt_apic = λ i. 7; activity_states = λ i. state_active; memory = λ a. 0 }

intercept_apic_write-new_example :
    (vm : SvmGuest × Shared) × (new arith_fields true 0xfee0_0900 0 all_writable
      ≡ Outcome.returns vm)
    × (vm.0.control_area.tlb_control ≡ flush_all)
    × (writable arith_fields (vm.1.pt_apic 0) ≡ false)
    × ((k : ℕ) → k ≢ 0 → vm.1.pt_apic k ≡ 7)
    × (vm.1.activity_states ≡ (λ i. state_active))
    × (writable arith_fields ((intercept_apic_write arith_fields 0xfee0_0900 false vm).1.pt_apic 0)
        ≡ true)
intercept_apic_write-new_example = intercept_apic_write-new arith_fields 0xfee0_0900 all_writable
