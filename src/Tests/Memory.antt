-- ===== src/Tests/Memory.antt =====
-- address_space.c and convenience.c: accesses of the concrete memory, and its set-up.
use libthumb2sim.Base.{ℕ, ◌^◌, ◌<◌, ◌≡◌, inr, refl, true, false, none, some, [], ◌∷◌, u32, arith}
use libthumb2sim.Cpu.{EmuCtx}
use libthumb2sim.AddressSpace.{AddressSpace, covers, getslice, read8, read32, write32, add_region}
use libthumb2sim.AddressSpace.Access.{read32-ok}
use libthumb2sim.AddressSpace.Laws.{Written, write32-Written, read32-write32, read32-write32_ne}
use libthumb2sim.AddressSpace.Region.{Added, add_region-Added, getslice-add_region, read32-wrapped}
use libthumb2sim.Simulator.{reset, init_cortexm}
use libthumb2sim.Simulator.Init.{
  IsReady, booted, reset-IsReady, init_cortexm-IsReady, image_byte, read8-booted,
}
use libthumb2sim.Tests.{rom, ram, shadow, space, space-IsValid, state, params, image}

read32-ok_example : (v : ℕ) × (read32 space 0x20000004 ≡ some v) × (v < 2 ^ 32)
read32-ok_example = read32-ok space-IsValid 0x20000004 (omega arith)

write32-Written_example : Written space (write32 space 0x20000004 7)
write32-Written_example = write32-Written space-IsValid 0x20000004 7 (omega arith)

read32-write32_example :
    (m' : AddressSpace) × (write32 space 0x20000004 7 ≡ some m')
    × (read32 m' 0x30000004 ≡ some (u32 7))
unfolding getslice covers
read32-write32_example =
    read32-write32 space-IsValid 0x20000004 0x30000004 7 ram shadow (omega arith) refl refl refl
      refl refl

read32-write32_ne_example :
    (m' : AddressSpace) × (write32 space 0x20000004 7 ≡ some m')
    × (read32 m' 0x30000008 ≡ read32 space 0x30000008)
unfolding getslice covers
read32-write32_ne_example =
    read32-write32_ne space-IsValid 0x20000004 0x30000008 7 ram shadow (omega arith) refl refl refl
      (inr (inr (omega arith)))

add_region-Added_example :
    (m' : AddressSpace) × (add_region space 0x40000000 8 2 false false ≡ some m')
    × Added space m' 0x40000000 8 2 false false
add_region-Added_example =
    add_region-Added space 0x40000000 8 2 false false space-IsValid (omega arith) (omega arith)

abbrev space_with_all : AddressSpace
space_with_all = record space {
  slices =
      rom
      ∷ ram
      ∷ shadow
      ∷ record { begin = 0; end = 8; block = 2; read_only = false; shadow_mapping = false }
      ∷ [];
}

getslice-add_region_example : getslice space_with_all.slices 4 4 ≡ some rom
unfolding add_region getslice covers
getslice-add_region_example =
    getslice-add_region space space_with_all 0 8 2 4 4 false false rom refl refl

read32-wrapped_example :
    (getslice space.slices 0xfffffffe 4 ≡ some rom) × (read32 space 0xfffffffe ≡ none)
read32-wrapped_example =
    read32-wrapped space rom (ram ∷ shadow ∷ []) 0xfffffffe refl (omega arith) (omega arith)
      (omega arith) (omega arith) (omega arith)

reset-IsReady_example :
    (emu' : EmuCtx) × (reset state ≡ some emu') × IsReady emu' × (emu'.addr_space ≡ space)
reset-IsReady_example = reset-IsReady state space-IsValid (omega arith) (omega arith) (omega arith)

init_cortexm-IsReady_example :
    (emu : EmuCtx) × (init_cortexm params true (some image) none ≡ some emu)
    × IsReady emu
    × (emu.addr_space ≡ booted params (some image) none)
init_cortexm-IsReady_example = init_cortexm-IsReady params (some image) none (omega arith)

read8-booted_example : read8 (booted params (some image) none) 4 ≡ some (image_byte (some image) 4)
read8-booted_example = read8-booted params (some image) none 4 (omega arith) (omega arith)
