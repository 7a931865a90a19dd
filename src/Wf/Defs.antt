-- ===== src/Wf/Defs.antt =====
-- The invariant of the machine's state, and what the handlers of the devices and the host's floats
-- have to give for it.
use tinyvm.Base.{ℕ, ◌^◌, ◌≤◌, ◌<◌, ◌≡◌, ℤ, Option, none, some, List, [], ◌∷◌, Gives, Keeps}
use tinyvm.Device.Block.{HostFile}
use tinyvm.Machine.{
  Disk, Virtio, VirtioSlot, Virtqueue, VirtqRing, Machine, Cpu, MemRegion, Plic, Uart, Device,
}
use tinyvm.Memory.{DeviceIo}
use tinyvm.Execute.Float.{HostFloat}

abbrev pub IsU64 : ℕ → Type 0
IsU64 v = v < 2 ^ 64

abbrev pub IsU32 : ℕ → Type 0
IsU32 v = v < 2 ^ 32

abbrev pub IsU8 : ℕ → Type 0
IsU8 v = v < 2 ^ 8

pub record IsCpu (c : Cpu) : Type 0 where
  pub x0 : c.regs 0 ≡ 0
  pub regs_fit : (r : ℕ) → IsU64 (c.regs r)
  pub fregs_fit : (r : ℕ) → IsU64 (c.fregs r)
  pub pc_fits : IsU64 c.pc
  pub csrs_fit : (a : ℕ) → IsU64 (c.csrs a)
  pub privilege_fits : c.privilege ≤ 3
  pub steps_fit : IsU64 c.steps

abbrev pub AreBytes : Option (ℕ → ℕ) → Type 0
AreBytes none = Unit
AreBytes (some f) = (i : ℕ) → IsU8 (f i)

abbrev pub AreRegions : List MemRegion → Type 0
AreRegions [] = Unit
AreRegions (r ∷ rs) = AreBytes r.bytes × AreRegions rs

pub record IsPlic (p : Plic) : Type 0 where
  pub priority_fits : (i : ℕ) → IsU32 (p.priority i)
  pub pending_fits : IsU32 p.pending
  pub enable_fits : (i : ℕ) → IsU32 (p.enable i)
  pub threshold_fits : (i : ℕ) → IsU32 (p.threshold i)
  pub claimed_fits : IsU32 p.claimed

pub record IsUart (u : Uart) : Type 0 where
  pub lcr_fits : IsU8 u.lcr
  pub ier_fits : IsU8 u.ier
  pub mcr_fits : IsU8 u.mcr
  pub scr_fits : IsU8 u.scr
  pub dll_fits : IsU8 u.dll
  pub dlh_fits : IsU8 u.dlh
  pub rx_buf_fits : IsU8 u.rx_buf

pub record IsRing (r : VirtqRing) : Type 0 where
  pub base_fits : IsU64 r.base
  pub size_fits : r.size < 2 ^ 16
  pub cursor_fits : r.cursor < 2 ^ 16

pub record IsQueue (q : Virtqueue) : Type 0 where
  pub desc_base_fits : IsU64 q.desc_base
  pub is_avail : IsRing q.avail
  pub is_used : IsRing q.used

pub record IsSlot (s : VirtioSlot) : Type 0 where
  pub is_queue : IsQueue s.vq
  pub status_fits : IsU32 s.status
  pub device_features_sel_fits : IsU32 s.device_features_sel
  pub driver_features_sel_fits : IsU32 s.driver_features_sel
  pub queue_sel_fits : IsU32 s.queue_sel
  pub interrupt_status_fits : IsU32 s.interrupt_status

pub record IsVirtio (v : Virtio) : Type 0 where
  pub are_slots : (n : ℕ) → IsSlot (v.slots n)
  pub slot_count_fits : v.slot_count ≤ 8
  pub disk_capacity_fits : IsU64 v.disk_capacity

pub record IsMachine (m : Machine) : Type 0 where
  pub is_cpu : IsCpu m.cpu
  pub are_regions : AreRegions m.regions
  pub mtimecmp_fits : IsU64 m.mtimecmp
  pub is_plic : IsPlic m.plic
  pub is_uart : IsUart m.uart
  pub is_virtio : IsVirtio m.virtio

-- A handler returns a u64 and keeps the machine well-formed.
pub record IsIo (io : DeviceIo) : Type 0 where
  pub read_gives : (d : Device) (offset width : ℕ) → Gives IsMachine IsU64 (io.read d offset width)
  pub write_keeps :
      (d : Device) (offset val width : ℕ)
      → IsU64 val
      → Keeps IsMachine (io.write d offset val width)

-- The operations on doubles give 64-bit patterns.
pub record IsHost (host : HostFloat) : Type 0 where
  pub add_fits : (a b : ℕ) → IsU64 (host.double.add a b)
  pub sub_fits : (a b : ℕ) → IsU64 (host.double.sub a b)
  pub mul_fits : (a b : ℕ) → IsU64 (host.double.mul a b)
  pub div_fits : (a b : ℕ) → IsU64 (host.double.div a b)
  pub sqrt_fits : (a : ℕ) → IsU64 (host.double.sqrt a)
  pub fmin_fits : (a b : ℕ) → IsU64 (host.double.fmin a b)
  pub fmax_fits : (a b : ℕ) → IsU64 (host.double.fmax a b)
  pub extend_fits : (a : ℕ) → IsU64 (host.extend a)
  pub of_i32_fits : (a : ℕ) → IsU64 (host.double.of_i32 a)
  pub of_u32_fits : (a : ℕ) → IsU64 (host.double.of_u32 a)
  pub of_i64_fits : (a : ℕ) → IsU64 (host.double.of_i64 a)
  pub of_u64_fits : (a : ℕ) → IsU64 (host.double.of_u64 a)

abbrev pub AllU8 : List ℕ → Type 0
AllU8 [] = Unit
AllU8 (b ∷ bs) = IsU8 b × AllU8 bs

abbrev pub IsRead : Option (List ℕ) → Type 0
IsRead none = Unit
IsRead (some bs) = AllU8 bs

-- What pread puts into the buffer are bytes.
pub record IsFile (file : HostFile) : Type 0 where
  pub pread_gives : (disk : Disk) (offset : ℤ) (len : ℕ) → IsRead (file.pread disk offset len)
