-- ===== src/LibMem/Regions.antt =====
-- The free regions of an area: `get_free_vmrg_area` and `enlist_vm_freerg_list` of src/libmem.c.
use simple_os_simulator.Prelude.{
  ℕ, ◌+◌, ◌-◌, ◌^◌, ◌<◌, ◌≤◌, ◌≡◌, ◌++◌, arith, ◌&&◌, List, [], ◌∷◌, ltb, leb, if◌then◌else◌,
  success,
}
use simple_os_simulator.Mm.{Mm, Rg, Vma}
use simple_os_simulator.Vm.{get_vma_by_num}
use simple_os_simulator.LibMem.{enlist_vm_freerg_list, first_fit, get_free_vmrg_area}

-- A region of at least one byte, far from the end of the address space.
abbrev pub IsRegion : Rg → Type 0
IsRegion rg = (rg.rg_start < rg.rg_end) × (rg.rg_end < 2 ^ 63)

abbrev AreRegions : List Rg → Type 0
AreRegions [] = Unit {0}
AreRegions (rg ∷ rgs) = IsRegion rg × AreRegions rgs

-- How often a byte lies in a region, and in the regions of a list.
abbrev pub inside : ℕ → Rg → ℕ
inside x rg = if leb rg.rg_start x && ltb x rg.rg_end then 1 else 0

abbrev covered : ℕ → List Rg → ℕ
covered x [] = 0
covered x (rg ∷ rgs) = inside x rg + covered x rgs

-- Every region of the list is shorter than the size.
abbrev pub AllShorter : List Rg → ℕ → Type 0
AllShorter [] size = Unit {0}
AllShorter (rg ∷ rgs) size = (rg.rg_end < rg.rg_start + size) × AllShorter rgs size

-- The first region that is long enough begins at `start`.
pub record FirstFit (rgs : List Rg) (size start : ℕ) : Type 0 where
  pub before : List Rg
  pub chosen : Rg
  pub after : List Rg
  pub split : rgs ≡ before ++ (chosen ∷ after)
  pub shorter : AllShorter before size
  pub long : chosen.rg_start + size ≤ chosen.rg_end
  pub begins : chosen.rg_start ≡ start

-- What a successful search gives: the size cut off the front of the first region that is long enough,
-- and a list that lacks just its bytes.
pub record Cut (rgs : List Rg) (size : ℕ) (new : Rg) (left : List Rg) : Type 0 where
  pub first : FirstFit rgs size new.rg_start
  pub sized : new.rg_end ≡ new.rg_start + size
  pub below : new.rg_end < 2 ^ 63
  pub bytes : (x : ℕ) → covered x left + inside x new ≡ covered x rgs
  pub valid : AreRegions left

-- A region of less than 2 ^ 31 bytes that is put back is what a request of its size then gets from
-- the first area, and the memory is as it was before.
pub get_free_vmrg_area-enlist :
    (mm : Mm) (vma : Vma) (vmas : List Vma) (rg newrg : Rg)
    → mm.mmap ≡ vma ∷ vmas
    → IsRegion rg
    → rg.rg_end < rg.rg_start + 2 ^ 31
    → get_free_vmrg_area (enlist_vm_freerg_list mm rg).1 vma.vm_id (rg.rg_end - rg.rg_start) newrg
      ≡ (success, rg, mm)
unfolding enlist_vm_freerg_list get_free_vmrg_area first_fit get_vma_by_num
get_free_vmrg_area-enlist mm vma vmas rg newrg first (some_bytes, below) short =
    ground (arith, first)
