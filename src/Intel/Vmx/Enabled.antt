-- ===== src/Intel/Vmx/Enabled.antt =====
-- What the processor demands of VMXON, and that `enable` of intel/vmx.rs meets it.
use barevisor.Base.{
  ℕ, ◌%◌, ◌^◌, ◌≤◌, bit_and, bit_or, ◌≡◌, refl, sym, ap, ◌∙◌, ◌≢◌, ◌⊎◌, inl, inr, arith, ◌==◌,
  Bool-cases, Option, some, returns,
}
use barevisor.Words.{bit, bit-digit, bit-or, bit-and}
use barevisor.Paging.{update}
use barevisor.Intel.{Cpu, X86}
use barevisor.Intel.Controls.{get_adjusted_cr0, get_adjusted_cr4}
use barevisor.Intel.Controls.Fixed.{adjusted-IsFixed}
use barevisor.Intel.Vmx.{Vmx, default_vmx, update_feature_control_msr, enable}

module _ (x : X86) where
  -- The bits that one register fixes to 1 and the other allows to be 1.
  abbrev Keeps : ℕ → ℕ → ℕ → Type 0
  Keeps fixed0 fixed1 value = (i : ℕ) → (bit i fixed0 ≤ bit i value) × (bit i value ≤ bit i fixed1)

  -- The documented conditions under which VMXON does not fail.
  pub record IsReady (region : ℕ) (cpu : Cpu) : Type 0 where
    pub cr0_keeps : Keeps (cpu.msr x.ia32_vmx_cr0_fixed0) (cpu.msr x.ia32_vmx_cr0_fixed1) cpu.cr0
    pub cr4_keeps : Keeps (cpu.msr x.ia32_vmx_cr4_fixed0) (cpu.msr x.ia32_vmx_cr4_fixed1) cpu.cr4
    pub locked : bit 0 (cpu.msr x.ia32_feature_control) ≡ 1
    pub outside_smx : bit 2 (cpu.msr x.ia32_feature_control) ≡ 1
    pub revision : region ≡ cpu.msr x.ia32_vmx_basic % 2 ^ 32

  abbrev pub IsVmxon : (ℕ → Cpu → Option Cpu) → Type 0
  IsVmxon vmxon = (region : ℕ) (cpu : Cpu) → IsReady region cpu → vmxon region cpu ≡ some cpu

  -- The capability registers as they are documented: a bit fixed to 1 may be 1; and the numbers of
  -- these registers differ from that of the feature control register.
  pub record IsDocumented (cpu : Cpu) : Type 0 where
    pub cr0_consistent :
        (i : ℕ) → bit i (cpu.msr x.ia32_vmx_cr0_fixed0) ≤ bit i (cpu.msr x.ia32_vmx_cr0_fixed1)
    pub cr4_consistent :
        (i : ℕ) → bit i (cpu.msr x.ia32_vmx_cr4_fixed0) ≤ bit i (cpu.msr x.ia32_vmx_cr4_fixed1)
    pub distinct :
        (x.ia32_feature_control ≢ x.ia32_vmx_cr0_fixed0)
        × (x.ia32_feature_control ≢ x.ia32_vmx_cr0_fixed1)
        × (x.ia32_feature_control ≢ x.ia32_vmx_cr4_fixed0)
        × (x.ia32_feature_control ≢ x.ia32_vmx_cr4_fixed1)
        × (x.ia32_feature_control ≢ x.ia32_vmx_basic)

  keeps :
      (requested fixed0 fixed1 : ℕ)
      → ((i : ℕ) → bit i fixed0 ≤ bit i fixed1)
      → Keeps fixed0 fixed1 (bit_or (bit_and requested fixed1) fixed0)
  keeps requested fixed0 fixed1 consistent i =
      let at = (adjusted-IsFixed requested fixed0 fixed1).bits i in
      let c = consistent i in
      (
        ground (arith, at, c, bit-digit i fixed0, bit-digit i fixed1, bit-digit i requested),
        ground (arith, at, c, bit-digit i fixed0, bit-digit i fixed1, bit-digit i requested),
      )

  unlocked_bits :
      (control : ℕ)
      → (bit 0 (bit_or (bit_or control 4) 1) ≡ 1) × (bit 2 (bit_or (bit_or control 4) 1) ≡ 1)
  unfolding bit
  unlocked_bits control = (
    bit-or 0 (bit_or control 4) 1 ∙ omega (arith, bit-digit 0 (bit_or control 4)),
    bit-or 2 (bit_or control 4) 1 ∙ omega (arith, bit-or 2 control 4, bit-digit 2 control),
  )

  lock_bit : (control : ℕ) → bit_and control 1 ≡ 1 → bit 0 control ≡ 1
  unfolding bit
  lock_bit control e = ground (arith, bit-and 0 control 1, bit-digit 0 control)

  update-other : (m : ℕ → ℕ) (k v j : ℕ) → k ≢ j → update m k v j ≡ m j
  update-other m k v j ne = ground arith

  update-here : (m : ℕ → ℕ) (k v : ℕ) → update m k v k ≡ v
  update-here m k v = ground arith

  -- The processor before VMXON.
  abbrev pub adjusted : Cpu → Cpu
  adjusted cpu = record cpu {
    cr0 = get_adjusted_cr0 x cpu cpu.cr0;
    cr4 = get_adjusted_cr4 x cpu cpu.cr4;
  }

  -- Whether the feature control register was locked, by which it must allow VMX.
  abbrev pub IsLockable : Cpu → Type 0
  IsLockable cpu =
      (bit_and (cpu.msr x.ia32_feature_control) 1 ≡ 0)
      ⊎ ((bit_and (cpu.msr x.ia32_feature_control) 1 ≡ 1)
          × (bit 2 (cpu.msr x.ia32_feature_control) ≡ 1))

  ready :
      (cpu : Cpu)
      → IsDocumented cpu
      → IsLockable cpu
      → IsReady (default_vmx x cpu).vmxon_region (update_feature_control_msr x (adjusted cpu))
  unfolding update_feature_control_msr get_adjusted_cr0 get_adjusted_cr4 default_vmx
  ready cpu d (inl open_) = rw open_ (record {
    cr0_keeps = λ i.
        rw
          (
            update-other cpu.msr _ (bit_or (bit_or (cpu.msr x.ia32_feature_control) 4) 1) _
                d.distinct.0,
            update-other cpu.msr _ (bit_or (bit_or (cpu.msr x.ia32_feature_control) 4) 1) _
                d.distinct.1,
          )
          (keeps cpu.cr0 _ _ d.cr0_consistent i);
    cr4_keeps = λ i.
        rw
          (
            update-other cpu.msr _ (bit_or (bit_or (cpu.msr x.ia32_feature_control) 4) 1) _
                d.distinct.2,
            update-other cpu.msr _ (bit_or (bit_or (cpu.msr x.ia32_feature_control) 4) 1) _
                d.distinct.3,
          )
          (keeps cpu.cr4 _ _ d.cr4_consistent i);
    locked =
        ap (bit 0) (update-here cpu.msr _ _) ∙ (unlocked_bits (cpu.msr x.ia32_feature_control)).0;
    outside_smx =
        ap (bit 2) (update-here cpu.msr _ _) ∙ (unlocked_bits (cpu.msr x.ia32_feature_control)).1;
    revision = ap (λ v. v % 2 ^ 32) (sym (update-other cpu.msr _ _ _ d.distinct.4));
  })
  ready cpu d (inr (locked, allowed)) = rw locked (record {
    cr0_keeps = keeps cpu.cr0 _ _ d.cr0_consistent;
    cr4_keeps = keeps cpu.cr4 _ _ d.cr4_consistent;
    locked = lock_bit (cpu.msr x.ia32_feature_control) locked;
    outside_smx = allowed;
    revision = refl;
  })

  -- What the update leaves alone.
  pub record OnlyMsr (cpu after : Cpu) : Type 0 where
    pub control : (after.cr0 ≡ cpu.cr0) × (after.cr3 ≡ cpu.cr3) × (after.cr4 ≡ cpu.cr4)
    pub tables : (after.gdtr ≡ cpu.gdtr) × (after.idtr ≡ cpu.idtr) × (after.tr ≡ cpu.tr)
    pub others : (j : ℕ) → x.ia32_feature_control ≢ j → after.msr j ≡ cpu.msr j

  pub update_feature_control_msr-OnlyMsr :
      (cpu : Cpu) → OnlyMsr cpu (update_feature_control_msr x cpu)
  unfolding update_feature_control_msr
  update_feature_control_msr-OnlyMsr cpu =
      elim (Bool-cases (bit_and (cpu.msr x.ia32_feature_control) 1 == 0)) [
        | inl open_ ↦ rw open_ (record {
          control = (refl, refl, refl);
          tables = (refl, refl, refl);
          others = λ j ne. update-other cpu.msr _ _ j ne;
        })
        | inr locked ↦ rw locked (record {
          control = (refl, refl, refl);
          tables = (refl, refl, refl);
          others = λ j ne. refl;
        })
      ]

  pub enable_lem :
      (vmxon : ℕ → Cpu → Option Cpu) (cpu : Cpu)
      → IsVmxon vmxon
      → IsDocumented cpu
      → IsLockable cpu
      → enable x vmxon (cpu, default_vmx x cpu)
        ≡ returns (
          update_feature_control_msr x (adjusted cpu),
          record (default_vmx x cpu) { cr4 = cpu.cr4 },
        )
  unfolding enable
  enable_lem vmxon cpu succeeds documented lockable =
      rw
        (succeeds (default_vmx x cpu).vmxon_region (update_feature_control_msr x (adjusted cpu))
          (ready cpu documented lockable))
        refl

  -- If the capability registers are as documented, and the firmware has not locked the feature
  -- control register with VMX off, then `enable` does not panic, from whatever other state of the
  -- processor: CR0, CR4, the feature control register and the region are as VMXON demands.
  pub enable-IsReady :
      (vmxon : ℕ → Cpu → Option Cpu) (cpu : Cpu)
      → IsVmxon vmxon
      → IsDocumented cpu
      → IsLockable cpu
      → (after : Cpu × Vmx) × (enable x vmxon (cpu, default_vmx x cpu) ≡ returns after)
        × IsReady after.1.vmxon_region after.0
        × (after.1.cr4 ≡ cpu.cr4)
        × (after.0.cr3 ≡ cpu.cr3)
  enable-IsReady vmxon cpu succeeds documented lockable = (
    (update_feature_control_msr x (adjusted cpu), record (default_vmx x cpu) { cr4 = cpu.cr4 }),
    enable_lem vmxon cpu succeeds documented lockable,
    ready cpu documented lockable,
    refl,
    (update_feature_control_msr-OnlyMsr (adjusted cpu)).control.1,
  )
