-- ===== src/Intel/Vmx.antt =====
-- src/hvcore/src/hypervisor/intel/vmx.rs: entering and leaving VMX operation. The instructions VMXON,
-- on a region with a revision identifier, and VMXOFF are parameters; they fail or succeed.
pub mod Enabled
use barevisor.Base.{
  ◌≡◌, refl, ℕ, ◌%◌, ◌^◌, bit_and, bit_or, ◌==◌, if◌then◌else◌, Option, none, some, Outcome,
  returns, panics, ◌>>=◌, unwrap,
}
use barevisor.Paging.{update}
use barevisor.Intel.{Cpu, X86}
use barevisor.Intel.Controls.{get_adjusted_cr0, get_adjusted_cr4}

-- The region is its revision identifier.
pub record Vmx : Type 0 where
  pub vmxon_region : ℕ
  pub cr4 : ℕ

module _ (x : X86) where
  -- `Vmxon::default()` and `Vmx::default()`.
  abbrev pub default_vmxon : Cpu → ℕ
  default_vmxon cpu = cpu.msr x.ia32_vmx_basic % 2 ^ 32

  pub default_vmx : Cpu → Vmx
  default_vmx cpu = record { vmxon_region = default_vmxon cpu; cr4 = 0 }

  pub update_feature_control_msr : Cpu → Cpu
  update_feature_control_msr cpu =
      let feature_control = cpu.msr x.ia32_feature_control in
      if bit_and feature_control 1 == 0
      then record cpu {
        msr = update cpu.msr x.ia32_feature_control (bit_or (bit_or feature_control 4) 1);
      }
      else cpu

  pub enable : (ℕ → Cpu → Option Cpu) → Cpu × Vmx → Outcome (Cpu × Vmx)
  enable vmxon (cpu, vmx) = do
    let adjusted = record cpu {
      cr0 = get_adjusted_cr0 x cpu cpu.cr0;
      cr4 = get_adjusted_cr4 x cpu cpu.cr4;
    }
    cpu' ← unwrap (vmxon vmx.vmxon_region (update_feature_control_msr adjusted))
    returns (cpu', record vmx { cr4 = cpu.cr4 })

pub disable : (Cpu → Option Cpu) → Cpu × Vmx → Outcome (Cpu × Vmx)
disable vmxoff (cpu, vmx) = do cpu' ← unwrap (vmxoff cpu); returns (cpu', vmx)

pub disable_lem :
    (vmxoff : Cpu → Option Cpu) (cpu cpu' : Cpu) (vmx : Vmx)
    → vmxoff cpu ≡ some cpu'
    → disable vmxoff (cpu, vmx) ≡ returns (cpu', vmx)
unfolding disable
disable_lem vmxoff cpu cpu' vmx ends = rw ends refl
