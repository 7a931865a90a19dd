-- ===== src/Wf/Block.antt =====
-- src/virtio.c and src/virtio_blk.c: serving a notification keeps the machine well-formed.
use tinyvm.Base.{
  ℕ, zero, suc, ◌+◌, ◌^◌, ◌<◌, not, ◌==◌, Option, none, some, List, [], ◌∷◌, u16, Bool, true, false,
  arith, Exec, Gives, Keeps, Any, Gives-pure, Keeps-pure, Gives-spin, Gives-crash, Gives-gets,
  Keeps-gets, Keeps-modify, Gives-state, Gives-if, Gives-bind,
}
use tinyvm.Machine.{Machine, Virtqueue, VirtqRing}
use tinyvm.Memory.{DeviceIo}
use tinyvm.Device.Virtio.{
  VirtqDesc, remainder, vq_desc_read, vq_ring_has_next, vq_ring_next, vq_ring_post,
}
use tinyvm.Device.Block.{
  HostFile, take, blk_id, blk_do_get_id, blk_do_read, blk_do_write, write_file, blk_transfer,
  blk_handle_request, blk_serve, blk_notify, virtio_blk_t_in, virtio_blk_t_out, virtio_blk_t_get_id,
}
use tinyvm.Wf.Defs.{IsMachine, IsIo, IsFile, IsRead, IsQueue, IsU64, AllU8}
use tinyvm.Wf.Memory.{
  mem_read16-Gives, mem_read32-Gives, mem_read64-Gives, mem_write8-Keeps, mem_write16-Keeps,
  mem_write32-Keeps,
}
use tinyvm.Wf.Buffer.{mem_read_buf-Gives, mem_write_buf-Keeps}
use tinyvm.Wf.Slot.{on_queue-IsMachine}
use tinyvm.Wf.Virtio.{virtio_notify_guest-IsMachine}

abbrev IsU16 : ℕ → Type 0
IsU16 v = v < 2 ^ 16

take-AllU8 : (xs : List ℕ) (k : ℕ) → AllU8 xs → AllU8 (take xs k)
unfolding take
take-AllU8 xs zero h = tt
take-AllU8 [] (suc k) h = tt
take-AllU8 (x ∷ xs) (suc k) h = (h.0, take-AllU8 xs k h.1)

blk_id-AllU8 : AllU8 blk_id
blk_id-AllU8 = (
  omega arith,
  (
    omega arith,
    (
      omega arith,
      (
        omega arith,
        (
          omega arith,
          (
            omega arith,
            (omega arith, (omega arith, (omega arith, (omega arith, (omega arith, tt))))),
          ),
        ),
      ),
    ),
  ),
)

abbrev Status : Exec Machine ℕ → Type 0
Status m = Gives IsMachine IsU64 m

blk_do_get_id-Gives : (dst len : ℕ) → Status (blk_do_get_id dst len)
unfolding blk_do_get_id
blk_do_get_id-Gives dst len =
    Gives-bind _ _ (mem_write_buf-Keeps dst _ (take-AllU8 blk_id _ blk_id-AllU8))
      λ _ _. Gives-pure _ (omega arith)

Gives-unless :
    (b : Bool) (m n : Exec Machine ℕ)
    → Status m
    → Status n
    → Status (elim b [ true ↦ m | false ↦ n ])
Gives-unless true m n km kn = km
Gives-unless false m n km kn = kn

Gives-option :
    {A : Type 0} (Q : Option A → Type 0) (o : Option A) (m : Exec Machine ℕ)
    (f : A → Exec Machine ℕ)
    → Q o
    → Status m
    → ((a : A) → Q (some a) → Status (f a))
    → Status (elim o [ none ↦ m | some a ↦ f a ])
Gives-option Q none m f q km kf = km
Gives-option Q (some a) m f q km kf = kf a q

module _ (file : HostFile) (is_file : IsFile file) where
  set_disk :
      (offset : ℕ) (buf : List ℕ) (m : Machine)
      → IsMachine m
      → IsMachine (write_file file offset buf m).1
  set_disk offset buf m h = record {
    is_cpu = h.is_cpu;
    are_regions = h.are_regions;
    mtimecmp_fits = h.mtimecmp_fits;
    is_plic = h.is_plic;
    is_uart = h.is_uart;
    is_virtio = h.is_virtio;
  }

  blk_do_read-Gives : (rounds offset dst len : ℕ) → Status (blk_do_read file rounds offset dst len)
  unfolding blk_do_read
  blk_do_read-Gives zero offset dst len =
      Gives-if (len == 0) _ _ (λ _. Gives-pure _ (omega arith)) (λ _. Gives-spin)
  blk_do_read-Gives (suc rounds) offset dst len =
      Gives-unless (len == 0) _ _ (Gives-pure _ (omega arith)) (
        Gives-bind _ _ (Gives-gets {Q = IsRead} _ (λ m h. is_file.pread_gives m.disk _ _)) λ got r.
          Gives-option IsRead got _ _ r (Gives-pure _ (omega arith)) λ buf l.
            Gives-bind _ _ (mem_write_buf-Keeps dst buf l) λ _ _. blk_do_read-Gives rounds _ _ _)

  blk_do_write-Gives :
      (rounds offset src len : ℕ) → Status (blk_do_write file rounds offset src len)
  unfolding blk_do_write
  blk_do_write-Gives zero offset src len =
      Gives-if (len == 0) _ _ (λ _. Gives-pure _ (omega arith)) (λ _. Gives-spin)
  blk_do_write-Gives (suc rounds) offset src len =
      Gives-unless (len == 0) _ _ (Gives-pure _ (omega arith)) (
        Gives-bind _ _ (mem_read_buf-Gives src _) λ buf _.
          Gives-bind _ _ (Gives-state {Q = Any} _ (λ m h. (tt, set_disk offset buf m h))) λ put _.
            Gives-option Any put _ _ tt (Gives-pure _ (omega arith))
              λ n _. blk_do_write-Gives rounds _ _ _)

  blk_transfer-Gives :
      (type offset : ℕ) (desc : VirtqDesc) → Status (blk_transfer file type offset desc)
  unfolding blk_transfer
  blk_transfer-Gives type offset desc =
      Gives-if (type == virtio_blk_t_in) _ _
        (λ _. blk_do_read-Gives desc.len offset desc.addr desc.len)
        λ _.
          Gives-if (type == virtio_blk_t_out) _ _
            (λ _. blk_do_write-Gives desc.len offset desc.addr desc.len)
            λ _.
              Gives-if (type == virtio_blk_t_get_id) _ _
                (λ _. blk_do_get_id-Gives desc.addr desc.len) λ _. Gives-pure _ (omega arith)

remainder-Keeps : (a b : ℕ) → Keeps IsMachine (remainder a b)
unfolding remainder
remainder-Keeps a b = Gives-if (b == 0) _ _ (λ _. Gives-crash) (λ _. Keeps-pure _)

advance :
    (q : Virtqueue)
    → IsQueue q
    → IsQueue (let a = q.avail in record q { avail = record a { cursor = u16 (a.cursor + 1) } })
advance q h = record {
  desc_base_fits = h.desc_base_fits;
  is_avail = record {
    base_fits = h.is_avail.base_fits;
    size_fits = h.is_avail.size_fits;
    cursor_fits = omega arith;
  };
  is_used = h.is_used;
}

module _ (io : DeviceIo) (is_io : IsIo io) where
  vq_desc_read-Keeps : (desc_base index : ℕ) → Keeps IsMachine (vq_desc_read io desc_base index)
  unfolding vq_desc_read
  vq_desc_read-Keeps desc_base index = Gives-bind _ _ (mem_read64-Gives io is_io _) λ addr _.
      Gives-bind _ _ (mem_read32-Gives io is_io _) λ len _.
        Gives-bind _ _ (mem_read16-Gives io is_io _)
          λ flags _. Gives-bind _ _ (mem_read16-Gives io is_io _) λ next _. Keeps-pure _

  vq_ring_has_next-Keeps : (ring : VirtqRing) → Keeps IsMachine (vq_ring_has_next io ring)
  unfolding vq_ring_has_next
  vq_ring_has_next-Keeps ring = Gives-bind _ _ (mem_read16-Gives io is_io _) λ idx _. Keeps-pure _

  vq_ring_next-Gives : (n : ℕ) → Gives IsMachine IsU16 (vq_ring_next io n)
  unfolding vq_ring_next
  vq_ring_next-Gives n = Gives-bind _ _ (Keeps-gets _) λ ring _.
      Gives-bind _ _ (remainder-Keeps ring.cursor ring.size) λ entry _.
        Gives-bind _ _ (Keeps-modify _ (λ m h. on_queue-IsMachine n _ m advance h))
          λ _ _. mem_read16-Gives io is_io _

  vq_ring_post-Keeps :
      (n id len : ℕ) → IsU64 id → IsU64 len → Keeps IsMachine (vq_ring_post io n id len)
  unfolding vq_ring_post
  vq_ring_post-Keeps n id len h k = Gives-bind _ _ (Keeps-gets _) λ ring _.
      Gives-bind _ _ (mem_read16-Gives io is_io _) λ idx _.
        Gives-bind _ _ (remainder-Keeps idx ring.size) λ slot _.
          Gives-bind _ _ (mem_write32-Keeps io is_io _ id h) λ _ _.
            Gives-bind _ _ (mem_write32-Keeps io is_io _ len k) λ _ _.
              Gives-bind _ _ (Keeps-gets _) λ base _. mem_write16-Keeps io is_io _ _ (omega arith)

module _ (file : HostFile) (is_file : IsFile file) (io : DeviceIo) (is_io : IsIo io) where
  blk_handle_request-Keeps :
      (n head : ℕ) → IsU16 head → Keeps IsMachine (blk_handle_request file io n head)
  unfolding blk_handle_request
  blk_handle_request-Keeps n head h =
      let desc = vq_desc_read-Keeps io is_io in
      Gives-bind _ _ (Keeps-gets _) λ desc_base _. Gives-bind _ _ (desc _ _) λ hdr _.
        Gives-bind _ _ (desc _ _) λ buffer _. Gives-bind _ _ (desc _ _) λ status _.
          Gives-bind _ _ (mem_read32-Gives io is_io _) λ type _.
            Gives-bind _ _ (mem_read64-Gives io is_io _) λ sector _.
              Gives-bind _ _ (blk_transfer-Gives file is_file type _ buffer) λ result k.
                Gives-bind _ _ (mem_write8-Keeps io is_io _ result k)
                  λ _ _. vq_ring_post-Keeps io is_io n head 0 (omega (arith, h)) (omega arith)

  blk_serve-Keeps : (rounds n : ℕ) → Keeps IsMachine (blk_serve file io rounds n)
  unfolding blk_serve
  blk_serve-Keeps zero n = Gives-bind _ _ (Keeps-gets _) λ avail _.
      Gives-bind _ _ (vq_ring_has_next-Keeps io is_io avail)
        λ more _. Gives-if more _ _ (λ _. Gives-spin) (λ _. Keeps-pure tt)
  blk_serve-Keeps (suc rounds) n = Gives-bind _ _ (Keeps-gets _) λ avail _.
      Gives-bind _ _ (vq_ring_has_next-Keeps io is_io avail) λ more _.
        Gives-if more _ _
          (λ _. Gives-bind _ _ (vq_ring_next-Gives io is_io n) λ head h.
            Gives-bind _ _ (blk_handle_request-Keeps n head h) λ _ _. blk_serve-Keeps rounds n)
          (λ _. Keeps-pure tt)

  pub blk_notify-Keeps : (rounds n : ℕ) → Keeps IsMachine (blk_notify file io rounds n)
  unfolding blk_notify
  blk_notify-Keeps rounds n = Gives-bind _ _ (Keeps-gets _) λ ready _.
      Gives-if (not ready) _ _ (λ _. Keeps-pure tt)
        λ _.
          Gives-bind _ _ (blk_serve-Keeps rounds n)
            λ _ _. Keeps-modify _ (virtio_notify_guest-IsMachine n)
